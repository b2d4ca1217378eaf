-- ===== src/Startup/Loop.antt =====
-- How src/kvs_startup.c starts SPDK's loop: `kvs_start_loop` and the cores that `_get_cpu_mask` asks for.
use native.Mathlib.Nat.{pow-suc, div-div-eq-div-mul, pow-succ'}
use bagdb_spdk.Base.{
  ℕ, zero, suc, ◌+◌, ◌-◌, ◌*◌, ◌/◌, ◌%◌, ◌^◌, ◌<◌, ◌≤◌, ◌≡◌, refl, sym, subst, ap, ◌∙◌, Bool, true,
  false, not, Option, none, some, List, [], ◌∷◌, arith, ◌>>=◌, ◌>>◌, assert, ◌==◌, if◌then◌else◌,
  inl, inr, Bool-cases, replicate, get_or, u32, bind_some,
}
use mathlib.Core.Option.{some-injective, none-ne-some}
use bagdb_spdk.Spdk.{Reply}
use bagdb_spdk.Slab.{SuperLayout}
use bagdb_spdk.Startup.State.{StartOpts, Kvs, WorkerInitOpts}
use bagdb_spdk.Startup.Chain.{IsRuntime}

-- A mask of cores as its hexadecimal digits, without the "0x" in front.
abbrev pub Mask : Type 0
Mask = List ℕ

-- `_get_cpu_mask`
unfoldable pub get_cpu_mask : ℕ → Option Mask
get_cpu_mask nb_works =
    if nb_works == 1
    then some (3 ∷ [])
    else if nb_works == 2
    then some (7 ∷ [])
    else if nb_works == 4
    then some (1 ∷ 15 ∷ [])
    else if nb_works == 8
    then some (1 ∷ replicate 2 15)
    else if nb_works == 16
    then some (1 ∷ replicate 4 15)
    else if nb_works == 32
    then some (1 ∷ replicate 8 15)
    else if nb_works == 64
    then some (1 ∷ replicate 16 15)
    else if nb_works == 128
    then some (1 ∷ replicate 32 15)
    else none

-- `struct spdk_app_opts`, as far as the start sets it. A function is its address.
pub record AppOpts : Type 0 where
  pub reactor_mask : Option Mask
  pub shutdown_cb : Option ℕ

-- `assert(p!=NULL)`
abbrev pub not_null : {A : Type 0} → Option A → Option (Unit {0})
not_null none = none
not_null (some x) = some tt

-- `kvs_start_loop` up to its call of `spdk_app_start`: `g_started` and the options that SPDK gets.
unfoldable pub kvs_start_loop : ℕ → Bool → StartOpts → Option ℕ → AppOpts → Option (Bool × AppOpts)
kvs_start_loop kvs_shutdown g_started opts startup_fn spdk_opts = do
  mask ← get_cpu_mask opts.nb_works
  not_null startup_fn
  assert (not g_started)
  some (true, record { reactor_mask = some mask; shutdown_cb = some kvs_shutdown })

-- The number that hexadecimal digits write, after the number `n`.
abbrev pub from_hex : ℕ → Mask → ℕ
from_hex n [] = n
from_hex n (d ∷ ds) = from_hex (n * 16 + d) ds

-- Core `c` is in the mask.
abbrev pub HasCore : Mask → ℕ → Type 0
HasCore mask c = from_hex 0 mask / 2 ^ c % 2 ≡ 1

pow-pos : (k : ℕ) → 0 < 2 ^ k
pow-pos zero = omega arith
pow-pos (suc k) = omega (arith, pow-suc 2 k, pow-pos k)

ones-bit : (k c : ℕ) → c < k → (2 ^ k - 1) / 2 ^ c % 2 ≡ 1
ones-bit zero c lt = absurd (omega arith)
ones-bit (suc k) zero lt = let one : 2 ^ 0 ≡ 1 = refl in omega (arith, pow-suc 2 k, pow-pos k)
ones-bit (suc k) (suc c) lt =
    let half : (2 ^ suc k - 1) / 2 ≡ 2 ^ k - 1 = omega (arith, pow-suc 2 k) in
    let down : (2 ^ suc k - 1) / 2 ^ suc c ≡ (2 ^ k - 1) / 2 ^ c =
      ap (λ d. (2 ^ suc k - 1) / d) (pow-succ' 2 c)
      ∙ sym (div-div-eq-div-mul (2 ^ suc k - 1) 2 (2 ^ c))
      ∙ ap (λ d. d / 2 ^ c) half in
    rw down (ones-bit k c (omega arith))

-- The mask has ones for the first cores, one more than there are workers, of which there are few.
abbrev Ones : ℕ → Mask → Type 0
Ones n mask = (from_hex 0 mask ≡ 2 ^ (n + 1) - 1) × (n ≤ 128)

one_case :
    (n k : ℕ) (m mask : Mask) (rest : Option Mask)
    → Ones k m
    → (rest ≡ some mask → Ones n mask)
    → (if n == k then some m else rest) ≡ some mask
    → Ones n mask
one_case n k m mask rest ones others h = elim (Bool-cases (n == k)) [
  | inl e ↦
      let same : n ≡ k = ground (arith, e) in
      rw same (subst (Ones k) (some-injective m mask (rw e at h)) ones)
  | inr e ↦ others (rw e at h)
]

get_cpu_mask-Ones : (n : ℕ) (mask : Mask) → get_cpu_mask n ≡ some mask → Ones n mask
unfolding get_cpu_mask
get_cpu_mask-Ones n mask =
    one_case n 1 _ mask _ (refl, omega arith)
      (one_case n 2 _ mask _ (refl, omega arith)
        (one_case n 4 _ mask _ (refl, omega arith)
          (one_case n 8 _ mask _ (refl, omega arith)
            (one_case n 16 _ mask _ (refl, omega arith)
              (one_case n 32 _ mask _ (refl, omega arith)
                (one_case n 64 _ mask _ (refl, omega arith)
                  (one_case n 128 _ mask _ (refl, omega arith)
                    (λ h. absurd (none-ne-some mask h)))))))))

not_started : (b : Bool) (u : Unit {0}) → assert (not b) ≡ some u → b ≡ false
not_started true u h = absurd (none-ne-some u h)
not_started false u h = refl

small : (w : ℕ) → w < 128 → u32 (w + 1) ≡ w + 1
small w lt = omega arith

-- When the loop starts, SPDK gets a mask with the core of every worker of the runtime that is then built,
-- and with that of its chunk manager; the store is marked as started, which it was not before.
pub kvs_start_loop-HasCore :
    (kvs_shutdown : ℕ) (g_started g_started' : Bool) (opts : StartOpts) (startup_fn : Option ℕ)
    (spdk_opts spdk_opts' : AppOpts) (sl : SuperLayout) (os : List Reply) (kvs : Kvs)
    (d : WorkerInitOpts)
    → kvs_start_loop kvs_shutdown g_started opts startup_fn spdk_opts
      ≡ some (g_started', spdk_opts')
    → IsRuntime opts sl os kvs
    → (g_started ≡ false)
      × (g_started' ≡ true)
      × ((mask : Mask) × (spdk_opts'.reactor_mask ≡ some mask)
          × HasCore mask kvs.chunkmgr_worker.core_id
          × ((w : ℕ) → w < opts.nb_works → HasCore mask (get_or kvs.workers w d).core_id))
unfolding kvs_start_loop
kvs_start_loop-HasCore kvs_shutdown g_started g_started' opts startup_fn spdk_opts spdk_opts' sl os
      kvs d h is =
    let (mask, got, h₁) = bind_some (get_cpu_mask opts.nb_works) _ (g_started', spdk_opts') h in
    let (u, there, h₂) = bind_some (not_null startup_fn) _ (g_started', spdk_opts') h₁ in
    let (v, fresh, h₃) = bind_some (assert (not g_started)) _ (g_started', spdk_opts') h₂ in
    let out = some-injective _ (g_started', spdk_opts') h₃ in
    let (ones, few) = get_cpu_mask-Ones opts.nb_works mask got in
    let bit : (c : ℕ) → c < opts.nb_works + 1 → HasCore mask c =
      λ c lt. rw ones (ones-bit (opts.nb_works + 1) c lt) in
    (
      not_started g_started v fresh,
      sym (ap (λ p. p.0) out),
      (
        mask,
        sym (ap (λ p. p.1.reactor_mask) out),
        rw is.chunkmgr (bit 0 (omega arith)),
        λ w lt.
            let core : (get_or kvs.workers w d).core_id ≡ w + 1 =
              (is.worker w d lt).2 ∙ small w (omega (arith, few)) in
            rw core (bit (w + 1) (omega arith)),
      ),
    )
