-- ===== src/Prelude/Outcome.antt =====
-- The crate's `Result`, whose error is a boxed message.
use Prim.Native.Nat.{ℕ}
use Prim.Native.String.{String}
use mathlib.Core.Path.{◌≡◌, refl, ap}
use mathlib.Core.Logic.{◌⊎◌, inl, inr}
use mathlib.Core.Bool.{Bool, true, false}
use mathlib.Core.List.{List}
use mathlib.Core.Option.{Option, none, some}

-- The kinds of an I/O error that the source tells apart, with `ENOBUFS` as a kind of its own.
pub data ErrorKind : Type 0 where
  would_block : ErrorKind
  timed_out : ErrorKind
  interrupted : ErrorKind
  no_buffers : ErrorKind
  other_kind : ErrorKind

-- What the operating system reports, a fixed message, or a message that is formatted with numbers.
-- `panic` stands for an index out of range, which ends the process, and `out_of_fuel` is the model's
-- own mark for a loop that ran out of fuel: no Rust code returns these two.
pub data Error : Type 0 where
  io : ErrorKind → Error
  message : String → Error
  message_with : String → List ℕ → Error
  panic : Error
  out_of_fuel : Error

pub data Result {ℓ} (A : Type ℓ) : Type ℓ where
  ok : A → Result A
  err : Error → Result A

-- `if refused { return Err(e) }`
abbrev pub refuse : Bool → Error → Result (Unit {0})
refuse true e = err e
refuse false e = ok tt

-- `?`, with and without a value. Abbreviations, so that a chain computes wherever it stands.
infixl 5 ◌>>◌ ◌>>=◌
abbrev pub ◌>>=◌ {ℓ κ} : {A : Type ℓ} {B : Type κ} → Result A → (A → Result B) → Result B
err e >>= next = err e
ok a >>= next = next a

abbrev pub ◌>>◌ {ℓ} : {B : Type ℓ} → Result (Unit {0}) → Result B → Result B
checked >> rest = checked >>= λ _. rest

-- `Option::ok_or`
abbrev pub ok_or {ℓ} : {A : Type ℓ} → Option A → Error → Result A
ok_or none e = err e
ok_or (some a) e = ok a

abbrev pub value_or {ℓ} : {A : Type ℓ} → A → Result A → A
value_or d (ok a) = a
value_or d (err e) = d

pub Result-cases {ℓ} :
    {A : Type ℓ} (r : Result A) → ((a : A) × (r ≡ ok a)) ⊎ ((e : Error) × (r ≡ err e))
Result-cases (ok a) = inl (a, refl)
Result-cases (err e) = inr (e, refl)

pub ok-injective {ℓ} : {A : Type ℓ} {a b : A} → ok a ≡ ok b → a ≡ b
ok-injective e = cc e

-- What a chain that succeeds went through.
pub bind-ok {ℓ κ} :
    {A : Type ℓ} {B : Type κ} (m : Result A) (next : A → Result B) (b : B)
    → m >>= next ≡ ok b
    → (a : A) × (m ≡ ok a) × (next a ≡ ok b)
bind-ok (ok a) next b e = (a, refl, e)
bind-ok (err x) next b e = absurd (cc e)

pub refuse-ok {ℓ} :
    {B : Type ℓ} (refused : Bool) (x : Error) (rest : Result B) (b : B)
    → (refuse refused x >> rest) ≡ ok b
    → (refused ≡ false) × (rest ≡ ok b)
refuse-ok true x rest b e = absurd (cc e)
refuse-ok false x rest b e = (refl, e)

pub ok_or-ok {ℓ} : {A : Type ℓ} (o : Option A) (x : Error) (a : A) → ok_or o x ≡ ok a → o ≡ some a
ok_or-ok none x a e = absurd (cc e)
ok_or-ok (some a') x a e = ap some (ok-injective e)
