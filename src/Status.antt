-- ===== src/Status.antt =====
-- include/stratavm/status.hpp: error codes, and `Status` and `Result<T>` as one type of results.
-- A status's text is not kept. A result also tells what the C++ standard leaves undefined: an index
-- past the end of a vector or a buffer, a pointer into storage that was given up, a member of a union
-- that was not the last one written, and a conversion of a double that is out of int64_t's range; and a
-- loop that never ends.
use stratavm.Base.{◌≡◌, ap}

-- Every code but `Ok`, which is `ok` below.
pub data Code : Type 0 where
  truncated bad_magic unsupported_version bad_section_table duplicate_section : Code
  missing_section bad_atom_pool bad_schema bad_heap bad_journal bad_xref bad_value : Code
  bad_opcode node_out_of_range atom_out_of_range kind_out_of_range field_out_of_range : Code
  type_mismatch group_underflow group_overflow unresolved_ref invariant_violation : Code
  limit_exceeded internal bad_checksum not_found already_exists : Code

pub data Fault : Type 0 where
  out_of_range dangling inactive_member bad_conversion endless : Fault

pub data Result {ℓ} (A : Type ℓ) : Type ℓ where
  ok : A → Result A
  err : Code → Result A
  fault : Fault → Result A

-- `STRATAVM_RETURN_IF_ERROR`, and the test of a `Result` before its value is taken.
infixl 5 ◌>>=◌ ◌>>◌
abbrev pub ◌>>=◌ {ℓ κ} : {A : Type ℓ} {B : Type κ} → Result A → (A → Result B) → Result B
ok a >>= f = f a
err c >>= f = err c
fault x >>= f = fault x

abbrev pub ◌>>◌ {ℓ} : {B : Type ℓ} → Result (Unit {0}) → Result B → Result B
m >> k = m >>= λ _. k

pub bind-ok {ℓ κ} :
    {A : Type ℓ} {B : Type κ} {m : Result A} (f : A → Result B) {a : A} → m ≡ ok a → (m >>= f) ≡ f a
bind-ok f e = ap (λ q. q >>= f) e

-- No undefined behaviour, and `P` of the value if there is one.
pub data Ensures {ℓ κ} {A : Type ℓ} (P : A → Type κ) : Result A → Type (ℓ ⊔ κ) where
  returns : {a : A} → P a → Ensures P (ok a)
  refuses : {c : Code} → Ensures P (err c)

pub bind-Ensures {ℓ κ μ ν} :
    {A : Type ℓ} {B : Type κ} {P : A → Type μ} {Q : B → Type ν} {m : Result A} {f : A → Result B}
    → Ensures P m
    → ((a : A) → P a → Ensures Q (f a))
    → Ensures Q (m >>= f)
bind-Ensures (returns {a = a} p) k = k a p
bind-Ensures refuses k = refuses

pub Ensures-imp {ℓ μ ν} :
    {A : Type ℓ} {P : A → Type μ} {Q : A → Type ν} {m : Result A}
    → ((a : A) → P a → Q a)
    → Ensures P m
    → Ensures Q m
Ensures-imp k (returns {a = a} p) = returns (k a p)
Ensures-imp k refuses = refuses

-- As `Ensures`, but for a pointer into storage that was given up.
pub data Contained {ℓ κ} {A : Type ℓ} (P : A → Type κ) : Result A → Type (ℓ ⊔ κ) where
  gives : {a : A} → P a → Contained P (ok a)
  declines : {c : Code} → Contained P (err c)
  dangles : Contained P (fault dangling)

pub Ensures-Contained {ℓ κ} :
    {A : Type ℓ} {P : A → Type κ} {m : Result A} → Ensures P m → Contained P m
Ensures-Contained (returns p) = gives p
Ensures-Contained refuses = declines

pub bind-Contained {ℓ κ μ ν} :
    {A : Type ℓ} {B : Type κ} {P : A → Type μ} {Q : B → Type ν} {m : Result A} {f : A → Result B}
    → Contained P m
    → ((a : A) → P a → Contained Q (f a))
    → Contained Q (m >>= f)
bind-Contained (gives {a = a} p) k = k a p
bind-Contained declines k = declines
bind-Contained dangles k = dangles

pub Contained-imp {ℓ μ ν} :
    {A : Type ℓ} {P : A → Type μ} {Q : A → Type ν} {m : Result A}
    → ((a : A) → P a → Q a)
    → Contained P m
    → Contained Q m
Contained-imp k (gives {a = a} p) = gives (k a p)
Contained-imp k declines = declines
Contained-imp k dangles = dangles

pub Contained-ok {ℓ κ} : {A : Type ℓ} {P : A → Type κ} {a : A} → Contained P (ok a) → P a
Contained-ok (gives p) = p
