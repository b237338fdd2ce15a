-- ===== src/Reader/Tame.antt =====
-- Decoders whose steps may follow a stale pointer, as those of src/replay_vm.cpp.
use stratavm.Status.{
  Result, ok, err, fault, Ensures, returns, refuses, Contained, gives, declines, dangles,
  Contained-imp, Ensures-Contained,
}
use stratavm.Reader.{ByteReader, Decoder, ◌>>=◌, lift}
use stratavm.Reader.Bounds.{IsValid, Moved, Moved-refl, Moved-trans, Safe}

-- On every valid reader `m` indexes nothing out of range, and its value has `P`.
pub record Tame {κ} {A : Type 0} (m : Decoder A) (P : A → Type κ) : Type κ where
  pub at : (r : ByteReader) → IsValid r → Contained (λ s. P s.0 × Moved r s.1) (m r)

pub Safe-Tame {κ} : {A : Type 0} {P : A → Type κ} {m : Decoder A} → Safe m P → Tame m P
Safe-Tame h = record { at = λ r v. Ensures-Contained (h.at r v) }

after {κ μ} :
    {A B : Type 0} {P : A × ByteReader → Type κ} {Q : B × ByteReader → Type μ}
    {x : Result (A × ByteReader)} (f : A → Decoder B)
    → Contained P x
    → ((a : A) (r' : ByteReader) → P (a, r') → Contained Q (f a r'))
    → Contained Q (elim x [ ok (a, r') ↦ f a r' | err c ↦ err c | fault u ↦ fault u ])
after f (gives {a = s} p) k = k s.0 s.1 p
after f declines k = declines
after f dangles k = dangles

pub bind-Tame {κ μ} :
    {A B : Type 0} {P : A → Type κ} {Q : B → Type μ} {m : Decoder A} {f : A → Decoder B}
    → Tame m P
    → ((a : A) → P a → Tame (f a) Q)
    → Tame (m >>= f) Q
unfolding ◌>>=◌
bind-Tame {f = f} h k = record {
  at = λ r v.
      after f (h.at r v)
        λ a r' p. Contained-imp (λ s q. (q.0, Moved-trans p.1 q.1)) ((k a p.0).at r' p.1.valid);
}

pub Tame-imp {κ μ} :
    {A : Type 0} {P : A → Type κ} {Q : A → Type μ} {m : Decoder A}
    → ((a : A) → P a → Q a)
    → Tame m P
    → Tame m Q
Tame-imp k h = record { at = λ r v. Contained-imp (λ s q. (k s.0 q.0, q.1)) (h.at r v) }

lifted {κ} :
    {A : Type 0} {P : A → Type κ} {m : Result A} (r : ByteReader)
    → IsValid r
    → Contained P m
    → Contained (λ s. P s.0 × Moved r s.1) (lift m r)
lifted r v (gives p) = gives (p, Moved-refl v)
lifted r v declines = declines
lifted r v dangles = dangles

pub lift-Tame {κ} : {A : Type 0} {P : A → Type κ} {m : Result A} → Contained P m → Tame (lift m) P
lift-Tame h = record { at = λ r v. lifted r v h }

lifted_safe {κ} :
    {A : Type 0} {P : A → Type κ} {m : Result A} (r : ByteReader)
    → IsValid r
    → Ensures P m
    → Ensures (λ s. P s.0 × Moved r s.1) (lift m r)
lifted_safe r v (returns p) = returns (p, Moved-refl v)
lifted_safe r v refuses = refuses

pub lift-Safe {κ} : {A : Type 0} {P : A → Type κ} {m : Result A} → Ensures P m → Safe (lift m) P
lift-Safe h = record { at = λ r v. lifted_safe r v h }
