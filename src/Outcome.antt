-- ===== src/Outcome.antt =====
-- What a Go function comes back with: a result, an error value, or a run-time panic.

use goval_dictionary_v.Prelude.{◌≡◌, ◌≢◌, refl}

-- The errors by the place that makes them; the texts of the messages are not modelled.
pub data Error : Type 0 where
  unknown_family bad_batch_size failed_command failed_query : Error
  broken_relationship failed_marshal failed_unmarshal : Error
  missing_ref bad_version : Error
  locked_database failed_open failed_migrate failed_close : Error
  unsupported_dialect incompatible_schema : Error
  failed_download failed_decode failed_fetch no_update_info bad_title module_not_found : Error
  outdated_schema bad_timestamp unknown_suse_type bad_arguments no_architecture : Error

pub data Outcome {ℓ} (A : Type ℓ) : Type ℓ where
  ok : A → Outcome A
  err : Error → Outcome A
  panic : Outcome A

infixl 5 ◌>>=◌
abbrev pub ◌>>=◌ {ℓ κ} : {A : Type ℓ} {B : Type κ} → Outcome A → (A → Outcome B) → Outcome B
ok a >>= f = f a
err e >>= f = err e
panic >>= f = panic

pub bind_assoc {ℓ κ μ} :
    {A : Type ℓ} {B : Type κ} {C : Type μ} (o : Outcome A) (f : A → Outcome B) (g : B → Outcome C)
    → o >>= f >>= g ≡ o >>= (λ a. f a >>= g)
bind_assoc (ok a) f g = refl
bind_assoc (err e) f g = refl
bind_assoc panic f g = refl

pub bind_cong {ℓ κ} :
    {A : Type ℓ} {B : Type κ} (o : Outcome A) (f g : A → Outcome B)
    → ((a : A) → f a ≡ g a)
    → o >>= f ≡ o >>= g
bind_cong (ok a) f g h = h a
bind_cong (err e) f g h = refl
bind_cong panic f g h = refl

pub ok-ne-panic {ℓ} : {A : Type ℓ} (a : A) → ok a ≢ panic
ok-ne-panic a = cc

pub err-ne-panic {ℓ} : {A : Type ℓ} (e : Error) → ◌≢◌ {A = Outcome A} (err e) panic
err-ne-panic e = cc
