-- ===== src/ApiClient/Remote.antt =====
-- Code that draws random bytes and calls the server. The network and the server are an abstract
-- state.
use passwd.Base.Outcome.{Result, ok, throw}
use passwd.Base.Act.{Entropy, Act}

abbrev pub Remote : Type 0 → Type 0 → Type 0
Remote Net A = Net → Entropy → Result A × Net × Entropy

module _ {Net : Type 0} where
  abbrev pub done : {A : Type 0} → A → Remote Net A
  done a net w = (ok a, net, w)

  -- A step that leaves the server alone.
  abbrev pub local : {A : Type 0} → Act A → Remote Net A
  local m net w = ((m w).0, net, (m w).1)

  -- A call of the server.
  abbrev pub remote : {A : Type 0} → (Net → Result A × Net) → Remote Net A
  remote m net w = ((m net).0, (m net).1, w)

  abbrev continue : {A B : Type 0} → (A → Remote Net B) → Result A → Remote Net B
  continue f (ok a) net w = f a net w
  continue f (throw e) net w = (throw e, net, w)

  infixl 5 ◌>>=◌
  abbrev pub ◌>>=◌ : {A B : Type 0} → Remote Net A → (A → Remote Net B) → Remote Net B
  ◌>>=◌ m f net w = continue f (m net w).0 (m net w).1 (m net w).2
