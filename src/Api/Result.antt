-- ===== src/Api/Result.antt =====
-- Python's exceptions as values, and methods that change a state and may raise. What was written
-- before a raise stays written, so the state comes back beside the exception too.
use es_kaq_translator_v.Base.{ℕ, Option, none, some, ◌≡◌, refl, ◌⊎◌, inl, inr}
use es_kaq_translator_v.Text.{Text}

pub data Exn : Type 0 where
  key_error : Text → Exn
  value_error type_error runtime_error validation_error botocore_error : Exn
  -- `FileNotFoundError`, `FileExistsError`
  os_error : Exn
  -- `ClientError`, with its error code
  client_error : Text → Exn
  -- `app.translation.TranslationServiceError`
  translation_service_error : (status_code : ℕ) (message : Text) → Exn

pub data Result {ℓ} (A : Type ℓ) : Type ℓ where
  ok : A → Result A
  raise : Exn → Result A

abbrev pub Exec {ℓ κ} : Type ℓ → Type κ → Type (ℓ ⊔ κ)
Exec W A = W → Result A × W

module _ {ℓ κ} {W : Type ℓ} {A : Type κ} where
  abbrev pub pure : A → Exec W A
  pure a w = (ok a, w)

  abbrev pub throw : Exn → Exec W A
  throw e w = (raise e, w)

  abbrev pub lift : Result A → Exec W A
  lift r w = (r, w)

  abbrev pub gets : (W → A) → Exec W A
  gets f w = (ok (f w), w)

  abbrev pub or_throw : Option A → Exn → Exec W A
  or_throw none e = throw e
  or_throw (some a) e = pure a

module _ {ℓ κ} {W : Type ℓ} {A B : Type κ} where
  abbrev pub continue : Result A → (A → Exec W B) → Exec W B
  continue (ok a) f w = f a w
  continue (raise e) f w = (raise e, w)

infixl 5 ◌>>=◌ ◌>>◌
abbrev pub ◌>>=◌ {ℓ κ} : {W : Type ℓ} {A B : Type κ} → Exec W A → (A → Exec W B) → Exec W B
◌>>=◌ m f w = let (r, w') = m w in continue r f w'

abbrev pub ◌>>◌ {ℓ κ} : {W : Type ℓ} {A B : Type κ} → Exec W A → Exec W B → Exec W B
m >> k = m >>= λ _. k

abbrev pub modify {ℓ} : {W : Type ℓ} → (W → W) → Exec W (Unit {0})
modify f w = (ok tt, f w)

pub Result-cases {ℓ} :
    {A : Type ℓ} (r : Result A) → ((a : A) × (r ≡ ok a)) ⊎ ((e : Exn) × (r ≡ raise e))
Result-cases (ok a) = inl (a, refl)
Result-cases (raise e) = inr (e, refl)

pub continue-pure {ℓ κ} :
    {W : Type ℓ} {A B : Type κ} (r : Result A) (b : B) (w : W) → (continue r (λ _. pure b) w).1 ≡ w
continue-pure (ok a) b w = refl
continue-pure (raise e) b w = refl

abbrev pub and_then {ℓ κ} : {A : Type ℓ} {B : Type κ} → Result A → (A → Result B) → Result B
and_then (ok a) f = f a
and_then (raise e) f = raise e

pub lift-lift {ℓ κ} :
    {W : Type ℓ} {A B : Type κ} (r : Result A) (f : A → Result B) (w : W)
    → (lift r >>= λ a. lift (f a)) w ≡ (and_then r f, w)
lift-lift (ok a) f w = refl
lift-lift (raise e) f w = refl
