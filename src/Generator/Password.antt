-- ===== src/Generator/Password.antt =====
-- PasswordReconciler of pkg/generator/password_reconciler.go. A Go int is its two's complement in 64
-- bits. The password under construction is kept as its runes: each WriteString writes one rune, and
-- []rune gives them back.
pub mod Drawing
pub mod Shuffling
pub mod Composition
pub mod Created
use secretgen_controller.Common.{
  ℕ, zero, suc, ◌+◌, ◌-◌, ◌%◌, ◌^◌, Text, get_elem?, codes, text_eq_instance, Bool, true, false,
  Option, none, some, List, [], ◌∷◌, ◌++◌, length, ltb, if◌then◌else◌,
}
use secretgen_controller.Common.Go.{Go, Outcome, value, panicked, pure, panic, call, ◌>>=◌, ◌>>◌}
use secretgen_controller.Kube.{Client, Fetched, found, failed}
use secretgen_controller.Api.{NamespacedName, ObjectMeta, Secret, key_of}
use secretgen_controller.Api.Errors.{Error, is_not_found}
use secretgen_controller.Api.Conditions.{GenericStatus}
use secretgen_controller.Expansion.{string_of_byte, variable}
use secretgen_controller.Reconciler.Status.{
  Result, Reply, done, again, set_reconciling, with_reconcile_completed, created_reply,
}
use secretgen_controller.Reconciler.Secrets.{
  SetControllerReference, SecretTemplate, OwnedSecret, new_secret, apply_templates,
}
use secretgen_controller.Generator.Random.{Random, Drawn, drawn, no_entropy, rand_int}

pub record PasswordSpec : Type 0 where
  pub length : ℕ
  pub digits : ℕ
  pub symbols : ℕ
  pub uppercase_letters : ℕ
  pub lowercase_letters : ℕ
  pub symbol_char_set : Text
  pub secret_template : Option SecretTemplate

pub record Password : Type 0 where
  pub meta : ObjectMeta
  pub spec : PasswordSpec
  pub generic_status : GenericStatus

abbrev pub lower_char_set : Text
lower_char_set = codes "abcdefghijklmnopqrstuvwxyz"

abbrev pub upper_char_set : Text
upper_char_set = codes "ABCDEFGHIJKLMNOPQRSTUVWXYZ"

abbrev pub digit_set : Text
digit_set = codes "0123456789"

abbrev pub all_char_set : Text
all_char_set = lower_char_set ++ (upper_char_set ++ digit_set)

-- The rounds of `for i := 0; i < n; i++`: none if n is negative.
unfoldable pub rounds : ℕ → ℕ
rounds n = if ltb n (2 ^ 63) then n else 0

-- `a - b` on int.
unfoldable pub sub_int : ℕ → ℕ → ℕ
sub_int a b = (a + (2 ^ 64 - b)) % 2 ^ 64

unfoldable pub remaining_length : PasswordSpec → ℕ
unfolding sub_int
remaining_length spec =
    sub_int
      (sub_int (sub_int (sub_int spec.length spec.symbols) spec.digits) spec.uppercase_letters)
      spec.lowercase_letters

-- A string, or an error.
pub data Built : Type 0 where
  built : Text → Built
  stopped : Error → Built

-- `s[i] = v`.
unfoldable pub set_elem : Text → ℕ → ℕ → Text
set_elem [] i v = []
set_elem (c ∷ s) zero v = v ∷ s
set_elem (c ∷ s) (suc i) v = c ∷ set_elem s i v

-- `inRune[i], inRune[j] = inRune[j], inRune[i]`.
unfoldable pub swap_found : ℕ → ℕ → Text → Option ℕ → Option ℕ → Outcome Text
unfolding set_elem
swap_found i j runes (some a) (some b) = value (set_elem (set_elem runes i b) j a)
swap_found i j runes none _ = panicked (codes "index out of range")
swap_found i j runes (some a) none = panicked (codes "index out of range")

unfoldable pub swap : ℕ → ℕ → Text → Outcome Text
unfolding get_elem? swap_found
swap i j runes = swap_found i j runes (get_elem? runes i) (get_elem? runes j)

-- string(inRune), of runes below 256.
unfoldable pub encode_runes : Text → Text
unfolding string_of_byte
encode_runes [] = []
encode_runes (c ∷ s) = string_of_byte c ++ encode_runes s

byte_at : Option ℕ → Outcome Drawn
byte_at none = panicked (codes "index out of range")
byte_at (some c) = value (drawn c)

-- string(s[n]): one rune.
picked : Text → Drawn → Outcome Drawn
unfolding byte_at get_elem?
picked s (no_entropy err) = value (no_entropy err)
picked s (drawn n) = byte_at (get_elem? s n)

abbrev pub password_secret_key : Text
password_secret_key = codes "value"

abbrev pub default_template : SecretTemplate
default_template = record {
  metadata = record { annotations = none; labels = none };
  type = codes "kubernetes.io/basic-auth";
  string_data = some ((codes "password", variable password_secret_key) ∷ []);
}

abbrev pub with_generic_status : GenericStatus → Password → Password
with_generic_status st p = record p { generic_status = st }

module _ {W : Type 0} (random : Random W) where
  unfoldable pub random_element : Text → Go W Drawn
  unfolding picked rand_int
  random_element s = do d ← rand_int random (length s); (λ w. (picked s d, w))

  append_more : (Text → Go W Built) → Text → Drawn → Go W Built
  append_more next acc (no_entropy err) = pure (stopped err)
  append_more next acc (drawn c) = next (acc ++ (c ∷ []))

  -- A loop of generate: so many characters of a set behind what is written.
  unfoldable pub append_random : Text → ℕ → Text → Go W Built
  unfolding random_element append_more
  append_random set zero acc = pure (built acc)
  append_random set (suc n) acc = do c ← random_element set; append_more (append_random set n) acc c

  -- The rest of generate runs where a loop has not returned an error.
  unfoldable pub unless_stopped : (Text → Go W Built) → Built → Go W Built
  unless_stopped next (stopped err) = pure (stopped err)
  unless_stopped next (built t) = next t

  -- A failed draw leaves a nil number, which is dereferenced.
  swap_drawn : ℕ → Drawn → Text → Go W Text
  unfolding swap
  swap_drawn i (no_entropy err) runes w =
      (panicked (codes "invalid memory address or nil pointer dereference"), w)
  swap_drawn i (drawn j) runes w = (swap i j runes, w)

  -- localCryptoShuffle from its loop variable on: its two loops have one body.
  unfoldable pub shuffle : ℕ → Text → Go W Text
  unfolding swap_drawn rand_int
  shuffle zero runes = pure runes
  shuffle (suc i) runes = do
    d ← rand_int random (suc (suc i))
    swapped ← swap_drawn (suc i) d runes
    shuffle i swapped

  unfoldable pub local_crypto_shuffle : Text → Go W Text
  unfolding shuffle
  local_crypto_shuffle runes = shuffle (length runes - 1) runes

  -- The runes of generate, in front of the conversion of the result.
  unfoldable pub draw_all : PasswordSpec → Go W Built
  unfolding append_random unless_stopped rounds remaining_length
  draw_all spec = do
    symbols ← append_random spec.symbol_char_set (rounds spec.symbols) []
    digits ← unless_stopped (append_random digit_set (rounds spec.digits)) symbols
    uppers ← unless_stopped (append_random upper_char_set (rounds spec.uppercase_letters)) digits
    lowers ← unless_stopped (append_random lower_char_set (rounds spec.lowercase_letters)) uppers
    unless_stopped (append_random all_char_set (rounds (remaining_length spec))) lowers

  shuffle_all : Text → Go W Built
  unfolding local_crypto_shuffle encode_runes
  shuffle_all runes = do shuffled ← local_crypto_shuffle runes; pure (built (encode_runes shuffled))

  unfoldable pub generate : PasswordSpec → Go W Built
  unfolding draw_all shuffle_all unless_stopped
  generate spec = do drawn_runes ← draw_all spec; unless_stopped shuffle_all drawn_runes

  module _ (passwords : Client W Password) (secrets : Client W Secret)
      (set_reference : SetControllerReference) where
    -- The secret for a password.
    unfoldable pub password_secret : Password → Text → Secret
    unfolding new_secret apply_templates
    password_secret password text =
        (apply_templates default_template password.spec.secret_template
          (new_secret set_reference password.meta ((password_secret_key, text) ∷ []))).secret

    create_built : Password → Built → Go W Reply
    unfolding password_secret created_reply
    create_built password (stopped err) = pure (again, some err)
    create_built password (built text) = do
      err ← call (secrets.create (password_secret password text))
      pure (created_reply err)

    pub create_secret : Password → Go W Reply
    unfolding generate create_built
    create_secret password = do text ← generate password.spec; create_built password text

    reconcile_fetched : Password → Fetched Secret → Go W Reply
    unfolding create_secret
    reconcile_fetched password (found secret) = pure (done, none)
    reconcile_fetched password (failed err) =
        if is_not_found err then create_secret password else pure (again, some err)

    reconcile : Password → Go W Reply
    unfolding reconcile_fetched
    reconcile password = do
      secret ← call (secrets.get (key_of password.meta))
      reconcile_fetched password secret

    -- updateStatus of a deferred call: its error is dropped.
    write_status : GenericStatus → Fetched Password → Go W (Unit {0})
    write_status st (failed err) = pure tt
    write_status st (found existing) = do
      call (passwords.update_status (with_generic_status st existing))
      pure tt

    update_status : Password → GenericStatus → Go W (Unit {0})
    unfolding write_status
    update_status password st = do
      existing ← call (passwords.get (key_of password.meta))
      write_status st existing

    complete : Password → GenericStatus → Reply → Go W Reply
    unfolding update_status
    complete password st reply = do
      let (reply', st') = with_reconcile_completed reply st
      update_status password st'
      pure reply'

    -- The status is written behind a panic too: the call is deferred.
    run_deferred : Password → GenericStatus → Outcome Reply → Go W Reply
    unfolding complete
    run_deferred password st (value reply) = complete password st reply
    run_deferred password st (panicked message) = do update_status password st; panic message

    reconcile_existing : Option ℕ → Password → Go W Reply
    unfolding reconcile run_deferred
    reconcile_existing (some t) password w = (value (done, none), w)
    reconcile_existing none password w =
        let st = set_reconciling password.meta password.generic_status in
        let (outcome, w') = reconcile (with_generic_status st password) w in
        run_deferred password st outcome w'

    reconcile_request : Fetched Password → Go W Reply
    unfolding reconcile_existing
    reconcile_request (failed err) =
        if is_not_found err then pure (done, none) else pure (again, some err)
    reconcile_request (found password) =
        reconcile_existing password.meta.deletion_timestamp password

    unfoldable pub reconcile_password : NamespacedName → Go W Reply
    unfolding reconcile_request
    reconcile_password request = do
      password ← call (passwords.get request)
      reconcile_request password
