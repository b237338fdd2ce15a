-- ===== src/Writer/Patch.antt =====
-- include/stratavm/byte_writer.hpp: `patch_u32` on a reserved slot.
use stratavm.Base.{
  ℕ, suc, ◌≡◌, refl, ap, subst, sym, ◌∙◌, List, [], ◌∷◌, ◌++◌, length, set, length-append,
  append_assoc, arith,
}
use stratavm.Writer.{u8, u16, u32, le_bytes, patch_u32, patch_bytes}

pub length-u32 : (v : ℕ) → length (u32 v) ≡ 4
unfolding u32 le_bytes
length-u32 v = refl

pub length-u16 : (v : ℕ) → length (u16 v) ≡ 2
unfolding u16
length-u16 v = refl

pub length-u8 : (v : ℕ) → length (u8 v) ≡ 1
unfolding u8
length-u8 v = refl

set_at : (a : List ℕ) (x v : ℕ) (c : List ℕ) → set (a ++ x ∷ c) (length a) v ≡ a ++ v ∷ c
set_at [] x v c = refl
set_at (y ∷ a) x v c = ap (◌∷◌ y) (set_at a x v c)

patch_bytes_lem :
    (bs old a c : List ℕ)
    → length old ≡ length bs
    → patch_bytes (a ++ (old ++ c)) (length a) bs ≡ a ++ (bs ++ c)
unfolding patch_bytes
patch_bytes_lem [] [] a c h = refl
patch_bytes_lem [] (x ∷ old) a c h = absurd (omega arith)
patch_bytes_lem (b ∷ bs) [] a c h = absurd (omega arith)
patch_bytes_lem (b ∷ bs) (x ∷ old) a c h =
    ap (λ buf. patch_bytes buf (suc (length a)) bs)
      (set_at a x b (old ++ c) ∙ sym (append_assoc a (b ∷ []) (old ++ c)))
    ∙ ap (λ n. patch_bytes ((a ++ b ∷ []) ++ (old ++ c)) n bs)
        (omega (arith, length-append a (b ∷ [])))
    ∙ patch_bytes_lem bs old (a ++ b ∷ []) c (omega arith)
    ∙ append_assoc a (b ∷ []) (bs ++ c)

pub patch_u32_lem :
    (a old c : List ℕ) (at v : ℕ)
    → length a ≡ at
    → length old ≡ 4
    → patch_u32 (a ++ (old ++ c)) at v ≡ a ++ (u32 v ++ c)
unfolding patch_u32
patch_u32_lem a old c at v h four =
    subst (λ n. patch_bytes (a ++ (old ++ c)) n (u32 v) ≡ a ++ (u32 v ++ c)) h
      (patch_bytes_lem (u32 v) old a c (four ∙ sym (length-u32 v)))
