-- ===== src/Tests/Words.antt =====
-- Generated identifiers.
use passwd.Base.{◌+◌, ◌*◌, ◌≡◌}
use passwd.Base.Act.{Entropy, later}
use passwd.Base.Outcome.{ok}
use passwd.Base.Strings.{join}
use passwd.Crypto.Generator.{generate_account_id}
use passwd.Crypto.Generator.Uniform.{drawn, generate_account_id-drawn}

abbrev striding : Entropy
striding = record { at = λ i. i * 1000003 + 17 }

generate_account_id-drawn_example :
    generate_account_id 12 12 striding ≡ (ok (join b' ' (drawn 12 0 striding)), later 12 striding)
generate_account_id-drawn_example = generate_account_id-drawn 11 striding
