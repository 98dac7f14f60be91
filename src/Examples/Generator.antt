-- ===== src/Examples/Generator.antt =====
-- The theorems of Generator and Tracker at a source of zeros, and at a cluster without secrets.
use secretgen_controller.Common.{
  ℕ, suc, Text, codes, false, none, some, List, [], ◌∷◌, ◌≡◌, ◌≢◌, refl, arith, length,
}
use secretgen_controller.Common.Go.{value}
use secretgen_controller.Api.{NamespacedName, Secret, named, key_of}
use secretgen_controller.Api.Errors.{api, not_found}
use secretgen_controller.Kube.{Client}
use secretgen_controller.Reconciler.Status.{created_reply}
use secretgen_controller.Reconciler.Secrets.Identity.{IsOwnedBy}
use secretgen_controller.Generator.Random.{Random, drawn, IsRandom}
use secretgen_controller.Generator.KeyPair.{KeyPair, Generated, key_pair}
use secretgen_controller.Generator.Password.{PasswordSpec, Password, rounds}
use secretgen_controller.Generator.Password.Composition.{generate_lem, IsPassword-length}
use secretgen_controller.Generator.RsaKey.{RsaKey}
use secretgen_controller.Generator.RsaKey
use secretgen_controller.Generator.RsaKey.Created.{reconcile-rsa_key}
use secretgen_controller.Generator.SshKey.{SshKey}
use secretgen_controller.Tracker.{new_tracker, get_tracking}
use secretgen_controller.Tracker.Relation.{
  Operation, tracks, untracks, is_in, apply_all, run_all, get_tracking-run_all,
}
use secretgen_controller.Generator.Inputs.{GenerateInputs}
use secretgen_controller.Examples.Data.{app, no_status, missing, client}

abbrev zeros : Random ℕ
zeros = record { int_below = λ n w. (drawn 0, suc w) }

zeros-IsRandom : IsRandom zeros
zeros-IsRandom = record { draws = λ n w. (0, refl, omega arith) }

abbrev spec : PasswordSpec
spec = record {
  length = 5;
  digits = 1;
  symbols = 1;
  uppercase_letters = 1;
  lowercase_letters = 1;
  symbol_char_set = codes "!@";
  secret_template = none;
}

abbrev password : Password
password = record { meta = named app; spec = spec; generic_status = no_status }

some_symbols : rounds spec.symbols ≢ 0 → spec.symbol_char_set ≢ []
some_symbols h e = ground arith

abbrev runes : Text
runes = (generate_lem zeros zeros-IsRandom spec 0 some_symbols).0

IsPassword-length_example : length runes ≡ spec.length
IsPassword-length_example =
    IsPassword-length spec runes (generate_lem zeros zeros-IsRandom spec 0 some_symbols).2
      (omega arith) (omega arith)

abbrev no_secrets : Client ℕ Secret
no_secrets = client (λ k. missing) []

abbrev passwords : Client ℕ Password
passwords = client (λ k. missing) []

abbrev pair : KeyPair
pair = record { public_key = codes "public"; private_key = codes "private" }

abbrev one_pair : ℕ → Generated × ℕ
one_pair w = (key_pair pair, suc w)

abbrev rsa_key : RsaKey
rsa_key = record { meta = named app; secret_template = none; generic_status = no_status }

abbrev ssh_key : SshKey
ssh_key = record { meta = named app; secret_template = none; generic_status = no_status }

reconcile-rsa_key_example :
    (secret : Secret) × (secret.contents
      ≡ some ((codes "pub.pem", codes "public") ∷ (codes "key.pem", codes "private") ∷ []))
    × IsOwnedBy (λ owner references. references) (named app) (codes "Opaque") secret
    × (RsaKey.reconcile
          (client (λ k. missing) [])
          no_secrets
          (λ owner references. references)
          one_pair
          rsa_key
          0
        ≡ (let (failure, w') =
              no_secrets.create secret (one_pair (no_secrets.get (key_of rsa_key.meta) 0).1).1 in
            (value (created_reply failure), w')))
reconcile-rsa_key_example =
    reconcile-rsa_key (client (λ k. missing) []) no_secrets (λ owner references. references)
      one_pair rsa_key (api not_found (codes "not found")) pair 0 refl refl refl refl

abbrev other : NamespacedName
other = record { namespace = codes "prod"; name = codes "other" }

abbrev operations : List Operation
operations = tracks app (other ∷ []) ∷ tracks other (app ∷ other ∷ []) ∷ untracks app ∷ []

get_tracking-run_all_example :
    is_in other (get_tracking app (run_all operations new_tracker))
    ≡ apply_all operations (λ _ _. false) other app
get_tracking-run_all_example = get_tracking-run_all operations other app

abbrev inputs : Text → GenerateInputs Text
inputs t = record { inputs = t; marshal = λ bytes. some bytes }
