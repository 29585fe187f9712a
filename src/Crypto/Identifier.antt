-- ===== src/Crypto/Identifier.antt =====
-- clients/packages/crypto/src/identifier.ts: the canonical form of an account identifier.
use passwd.Base.{Bool, true, false, [], ◌∷◌, if◌then◌else◌, Text}
use passwd.Base.Strings.{is_space, trim}
use passwd.Crypto.Platform.{Platform}

-- `replace(/\s+/g, " ")`; the flag says that the run of white space has begun.
unfoldable pub collapse : Bool → Text → Text
collapse inside [] = []
collapse inside (c ∷ s) =
    let blank = collapse true s in
    let next = collapse false s in
    if is_space c then (if inside then blank else b' ' ∷ blank) else c ∷ next

-- Trims, lower-cases and collapses white space.
unfoldable pub normalize_identifier : Platform → Text → Text
unfolding trim collapse is_space
normalize_identifier p identifier = collapse false (p.lower (trim identifier))
