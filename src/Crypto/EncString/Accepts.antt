-- ===== src/Crypto/EncString/Accepts.antt =====
-- The shape of the texts that the parser takes.
use passwd.Base.{
  ℕ, suc, ◌≡◌, ◌≢◌, ◌↔◌, inl, inr, refl, ap, sym, length, ◌∙◌, true, Bool-cases, some, List, [],
  ◌∷◌, ◌++◌, Text, take, drop, arith, Option-cases, Lacks,
}
use passwd.Base.Outcome.{ok, returned}
use passwd.Base.Strings.{
  index_of, split, split_two, index_of_sound, index_of-append, take-append, split-append,
  split-Lacks',
}
use passwd.Base.Numbers.{number_is_one}
use passwd.Crypto.Base64.{from_base64}
use passwd.Crypto.EncString.{aes_gcm, EncString, parse_enc_string, parse_at, decode_parts}

-- The text is `<type>.<nonce>|<data>`: a type that is the number 1, and two non-empty parts that
-- decode to the two byte arrays of the envelope. Neither part holds another bar.
pub record Accepts (s : Text) (e : EncString) : Type 0 where
  pub type_text : Text
  pub nonce_text : Text
  pub data_text : Text
  pub splits : s ≡ type_text ++ (b'.' ∷ (nonce_text ++ (b'|' ∷ data_text)))
  pub first_dot : Lacks b'.' type_text
  pub is_one : number_is_one type_text ≡ true
  pub nonce_has_no_bar : Lacks b'|' nonce_text
  pub data_has_no_bar : Lacks b'|' data_text
  pub nonce_ne_nil : nonce_text ≢ []
  pub data_ne_nil : data_text ≢ []
  pub nonce_decodes : from_base64 nonce_text ≡ ok e.nonce
  pub data_decodes : from_base64 data_text ≡ ok e.ciphertext
  pub type_is_gcm : e.type ≡ aes_gcm

record Parts (ps : List Text) (e : EncString) : Type 0 where
  nonce_text : Text
  data_text : Text
  two : ps ≡ nonce_text ∷ data_text ∷ []
  nonce_ne_nil : nonce_text ≢ []
  data_ne_nil : data_text ≢ []
  nonce_decodes : from_base64 nonce_text ≡ ok e.nonce
  data_decodes : from_base64 data_text ≡ ok e.ciphertext
  type_is_gcm : e.type ≡ aes_gcm

decode_parts-Parts : (ps : List Text) {e : EncString} → decode_parts ps ≡ ok e → Parts ps e
unfolding decode_parts
decode_parts-Parts ((a ∷ n) ∷ (b ∷ d) ∷ []) {e} h =
    let (x, hx, later) = returned (from_base64 (a ∷ n)) _ h in
    let (y, hy, last) = returned (from_base64 (b ∷ d)) _ later in
    record {
      nonce_text = a ∷ n;
      data_text = b ∷ d;
      two = refl;
      nonce_ne_nil = cc;
      data_ne_nil = cc;
      nonce_decodes = ground arith;
      data_decodes = ground arith;
      type_is_gcm = ground arith;
    }
decode_parts-Parts _ h = cc

parse_at_dot :
    (s : Text) (i : ℕ) {e : EncString}
    → index_of b'.' s ≡ some i
    → parse_at s (some i) ≡ ok e
    → Accepts s e
unfolding parse_at
parse_at_dot s i {e} found h = elim (Bool-cases (number_is_one (take i s))) [
  | inl one ↦
      let parts = decode_parts-Parts (split b'|' (drop (suc i) s)) (rw one at h) in
      let (spelled, left, right) = split_two b'|' (drop (suc i) s) parts.two in
      let (lacks, cut) = index_of_sound b'.' s found in
      record {
        type_text = take i s;
        nonce_text = parts.nonce_text;
        data_text = parts.data_text;
        splits = cut ∙ ap (λ t. take i s ++ (b'.' ∷ t)) spelled;
        first_dot = lacks;
        is_one = one;
        nonce_has_no_bar = left;
        data_has_no_bar = right;
        nonce_ne_nil = parts.nonce_ne_nil;
        data_ne_nil = parts.data_ne_nil;
        nonce_decodes = parts.nonce_decodes;
        data_decodes = parts.data_decodes;
        type_is_gcm = parts.type_is_gcm;
      }
  | inr other ↦ cc (rw other at h)
]

-- Every accepted text has the shape of `Accepts`.
parse_enc_string_sound : (s : Text) {e : EncString} → parse_enc_string s ≡ ok e → Accepts s e
unfolding parse_enc_string
parse_enc_string_sound s {e} h = elim (Option-cases (index_of b'.' s)) [
  | inl e ↦ cc (rw (e, parse_at) at h)
  | inr (i, found) ↦ parse_at_dot s i found (rw found at h)
]

decode_parts_complete :
    (nonce content : Text) (e : EncString)
    → nonce ≢ []
    → content ≢ []
    → from_base64 nonce ≡ ok e.nonce
    → from_base64 content ≡ ok e.ciphertext
    → e.type ≡ aes_gcm
    → decode_parts (nonce ∷ content ∷ []) ≡ ok e
unfolding decode_parts
decode_parts_complete [] content e left right n d t = absurd (left refl)
decode_parts_complete (a ∷ nonce) [] e left right n d t = absurd (right refl)
decode_parts_complete (a ∷ nonce) (b ∷ content) e left right n d t =
    rw (n, d) (ap (λ x. ok (record e { type = x })) (sym t))

behind_dot : (t s : Text) → drop (suc (length t)) (t ++ (b'.' ∷ s)) ≡ s
behind_dot [] s = refl
behind_dot (c ∷ t) s = behind_dot t s

-- Every text of the shape of `Accepts` is accepted, as its envelope.
parse_enc_string_complete : (s : Text) (e : EncString) → Accepts s e → parse_enc_string s ≡ ok e
unfolding parse_enc_string parse_at
parse_enc_string_complete s e h =
    rw
      (
        h.splits,
        index_of-append b'.' h.type_text (h.nonce_text ++ (b'|' ∷ h.data_text)) h.first_dot,
        take-append h.type_text (b'.' ∷ (h.nonce_text ++ (b'|' ∷ h.data_text))),
        h.is_one,
        behind_dot h.type_text (h.nonce_text ++ (b'|' ∷ h.data_text)),
        split-append b'|' h.nonce_text h.data_text h.nonce_has_no_bar,
        split-Lacks' b'|' h.data_text h.data_has_no_bar,
      )
      (decode_parts_complete h.nonce_text h.data_text e h.nonce_ne_nil h.data_ne_nil h.nonce_decodes
        h.data_decodes h.type_is_gcm)

-- A text is accepted, as an envelope, exactly if it has the shape of `Accepts` for that envelope: a
-- type that is the number 1 in front of the first dot, and behind it two parts that are not empty,
-- with one bar between them, which decode to the nonce and the data.
pub parse_enc_string-Accepts :
    (s : Text) (e : EncString) → (parse_enc_string s ≡ ok e) ↔ Accepts s e
parse_enc_string-Accepts s e = (parse_enc_string_sound s, parse_enc_string_complete s e)
