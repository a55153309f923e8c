-- ===== src/Privacy/Tests.antt =====
-- Tokens of a concrete device. The code that is used here is not a cryptographic one.
use surveillance_hound.Common.{
  ℕ, ◌≡◌, refl, true, ◌&&◌, Option, some, List, [], ◌∷◌, arith, ◌==◌, length, all, replicate,
}
use surveillance_hound.Core.{blank_detection}
use surveillance_hound.Core.Text.{codes}
use surveillance_hound.Records.Validate.{is_base32}
use surveillance_hound.Privacy.{private_token}
use surveillance_hound.Privacy.Token.{IsMac, private_token-base32}

abbrev toy : List ℕ → List ℕ → Option (List ℕ)
toy key bytes = some (255 ∷ replicate 31 (length bytes))

toy-IsMac : IsMac toy
toy-IsMac key bytes mac e = ground (arith, e)

abbrev device_token : List ℕ
device_token = codes "74EAQCAIBAEAQCAIBAEA"

private_token-device : private_token toy [] blank_detection ≡ some device_token
unfolding private_token
private_token-device = refl

private_token-base32_example : ((length device_token == 20) && all is_base32 device_token) ≡ true
private_token-base32_example =
    private_token-base32 toy [] blank_detection device_token toy-IsMac private_token-device
