-- ===== src/Base/Swap.antt =====
-- Exchanging two entries of an array permutes it.
use mathlib.Core.List.{Perm, perm-cons}
use mathlib.Core.List.Perm
use Prim.Native.Nat.{ℕ, zero, suc, ◌<◌}
use mathlib.Core.Path.{◌≡◌, sym, ap, subst, ◌∙◌}
use mathlib.Core.Logic.{inl, inr}
use mathlib.Core.List.{List, [], ◌∷◌}
use native.Mathlib.Omega.{arith}
use bagdb_spdk.Base.Tests.{◌==◌, ==_iff, Bool-cases}
use bagdb_spdk.Base.Lists.{length, get_or, set, length-set, get_or-set_self, get_or-set_ne}

module _ {A : Type 0} (d : A) where
  pub set-perm :
      (a : List A) (i : ℕ) (v : A) → i < length a → Perm (get_or a i d ∷ set a i v) (v ∷ a)
  set-perm [] i v h = absurd (omega arith)
  set-perm (x ∷ a) zero v h = Perm.swap v x a
  set-perm (x ∷ a) (suc i) v h =
      Perm.trans (Perm.swap x (get_or a i d) (set a i v))
        (Perm.trans (Perm.cons x (set-perm a i v (omega arith))) (Perm.swap v x a))

  -- `a[j]` and then `a[i]` are set to what the other one was.
  abbrev pub exchanged : List A → ℕ → ℕ → List A
  exchanged a i j = set (set a j (get_or a i d)) i (get_or a j d)

  kept : (a : List A) (i j : ℕ) → j < length a → get_or (set a j (get_or a i d)) i d ≡ get_or a i d
  kept a i j h = elim (Bool-cases (j == i)) [
    | inl same ↦
        ap (λ k. get_or (set a j (get_or a i d)) k d) (sym ((==_iff j i).0 same))
        ∙ get_or-set_self a j (get_or a i d) d h
    | inr other ↦ get_or-set_ne a j i (get_or a i d) d (ground arith)
  ]

  pub exchanged-perm :
      (a : List A) (i j : ℕ) → i < length a → j < length a → Perm (exchanged a i j) a
  exchanged-perm a i j hi hj = (perm-cons (get_or a i d)).0 (
      Perm.trans
        (subst (λ x. Perm (x ∷ exchanged a i j) (get_or a j d ∷ set a j (get_or a i d)))
          (kept a i j hj)
          (set-perm (set a j (get_or a i d)) i (get_or a j d)
            (omega (arith, length-set a j (get_or a i d)))))
        (set-perm a j (get_or a i d) hj))
