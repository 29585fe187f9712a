-- ===== src/Extension/Hosts/Labels.antt =====
-- Hosts and the labels of domain names.
use passwd.Base.{◌≡◌, List, ◌++◌, Text}
use passwd.Base.Strings.{split}
use passwd.Crypto.Platform.{Platform}

abbrev pub labels : Text → List Text
labels host = split b'.' host

-- The labels of a domain are the last ones of another.
abbrev pub IsWithin : Text → Text → Type 0
IsWithin sub domain = (front : List Text) × (labels sub ≡ front ++ labels domain)
