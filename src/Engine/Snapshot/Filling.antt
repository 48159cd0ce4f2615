-- ===== src/Engine/Snapshot/Filling.antt =====
-- What the lines of an iptables transaction put into one chain.
use Prim.Native.Nat.{Ordering}
use l4d2_iptable_suite.Base.{
  ℕ, zero, suc, ◌≡◌, refl, Bool, true, false, not, ◌&&◌, ◌||◌, ◌===◌, String, Option, none, some,
  List, [], ◌∷◌, ◌++◌, All, if◌then◌else◌, arith, eq_refl, eq_iff, Bool-cases, inl, inr,
}
use l4d2_iptable_suite.Base.Sets.{member, insert_once, sorted_set}
use l4d2_iptable_suite.Engine.Save.{Rule}
use l4d2_iptable_suite.Engine.Iptables.{
  Hook, Line, flush, delete_chain, delete_rule, insert_rule, append_rule, repeat, hook_words,
  hook_lines, all_hook_lines, drop_chains, prepare_chains, sorted_hooks, insert_hook, compare_hooks,
}

abbrev pub Filling : Type 0
Filling = Option (List (List String))

abbrev pub and_then : Filling → List (List String) → Filling
and_then none words = none
and_then (some rules) words = some (rules ++ words)

-- What is appended to a chain after it was flushed; an insertion and a deletion of a rule in it, and its
-- deletion, leave nothing that is known.
abbrev pub fill_line : String → Line → Filling → Filling
fill_line c (flush d) acc = if d === c then some [] else acc
fill_line c (append_rule d words) acc = if d === c then and_then acc (words ∷ []) else acc
fill_line c (delete_rule d words) acc = if d === c then none else acc
fill_line c (insert_rule d words) acc = if d === c then none else acc
fill_line c (delete_chain d) acc = if d === c then none else acc
fill_line c _ acc = acc

unfoldable pub fill_lines : String → List Line → Filling → Filling
fill_lines c [] acc = acc
fill_lines c (l ∷ ls) acc = fill_lines c ls (fill_line c l acc)

abbrev pub are_keys : List String → Bool
are_keys [] = true
are_keys (k ∷ ks) = not (member k ks) && are_keys ks

pub fill_lines-append :
    (c : String) (xs ys : List Line) (acc : Filling)
    → fill_lines c (xs ++ ys) acc ≡ fill_lines c ys (fill_lines c xs acc)
unfolding fill_lines
fill_lines-append c [] ys acc = refl
fill_lines-append c (x ∷ xs) ys acc = fill_lines-append c xs ys (fill_line c x acc)

-- an element of a list is one of the sorted set
pub insert_once-member :
    (z x : String) (ys : List String)
    → ((z === x) || member z ys) ≡ true
    → member z (insert_once x ys) ≡ true
unfolding insert_once
insert_once-member z x [] h = h
insert_once-member z x (y ∷ ys) h =
    ground (arith, insert_once-member z x ys, eq_iff x y, eq_iff z x, eq_iff z y)

pub sorted_set-member :
    (z : String) (xs : List String) → member z xs ≡ true → member z (sorted_set xs) ≡ true
unfolding sorted_set
sorted_set-member z [] h = h
sorted_set-member z (x ∷ xs) h =
    insert_once-member z x (sorted_set xs) (ground (arith, h, sorted_set-member z xs))

module _ (c : String) where
  -- an own chain stays flushed, and is flushed when it is met
  pub prepare_chains-stays :
      (cs desired present : List String)
      → fill_lines c (prepare_chains cs desired present) (some []) ≡ some []
  unfolding prepare_chains fill_lines
  prepare_chains-stays [] desired present = refl
  prepare_chains-stays (d ∷ cs) desired present =
      ground (arith, prepare_chains-stays cs desired present)

  pub prepare_chains-flushes :
      (cs desired present : List String)
      → member c desired ≡ true
      → member c cs ≡ true
      → (acc : Filling) → fill_lines c (prepare_chains cs desired present) acc ≡ some []
  unfolding prepare_chains fill_lines
  prepare_chains-flushes [] desired present wanted h acc = cc
  prepare_chains-flushes (d ∷ cs) desired present wanted h acc =
      let stays = prepare_chains-stays cs desired present in
      elim (Bool-cases (d === c)) [
        | inl same ↦ rw ((eq_iff d c).0 same) (ground (arith, wanted, eq_refl c, stays))
        | inr other ↦
            let rest =
              prepare_chains-flushes cs desired present wanted
                (ground (arith, h, other, eq_iff c d, eq_iff d c)) acc in
            ground (arith, other, rest)
      ]

  -- lines for the foreign chains change nothing here
  pub repeat-keeps :
      (n : ℕ) (d : String) (words : List String) (acc : Filling)
      → (d === c) ≡ false
      → fill_lines c (repeat n (delete_rule d words)) acc ≡ acc
  unfolding fill_lines
  repeat-keeps zero d words acc other = refl
  repeat-keeps (suc n) d words acc other = rw (other, fill_lines) (repeat-keeps n d words acc other)

  pub hook_lines-keeps :
      (wanted : Bool) (n : ℕ) (d target : String) (acc : Filling)
      → (d === c) ≡ false
      → fill_lines c (hook_lines wanted n d target) acc ≡ acc
  unfolding hook_lines fill_lines
  hook_lines-keeps wanted n d target acc other = ground (
    arith,
    repeat-keeps n d (hook_words target) acc other,
    fill_lines-append c (repeat n (delete_rule d (hook_words target)))
        (if wanted then insert_rule d (hook_words target) ∷ [] else []) acc,
  )

  abbrev pub Foreign : Hook → Type 0
  Foreign h = (h.parent === c) ≡ false

  pub all_hook_lines-keeps :
      (t : String) (hs wanted : List Hook) (rules : List Rule) (acc : Filling)
      → All Foreign hs
      → fill_lines c (all_hook_lines t hs wanted rules) acc ≡ acc
  unfolding all_hook_lines fill_lines
  all_hook_lines-keeps t [] wanted rules acc all = refl
  all_hook_lines-keeps t (h ∷ hs) wanted rules acc all = elim (Bool-cases (not (h.table === t))) [
    | inl other ↦ rw other (all_hook_lines-keeps t hs wanted rules acc all.1)
    | inr same ↦
        rw
          (
            same,
            fill_lines-append c (hook_lines _ _ h.parent h.target) _ acc,
            hook_lines-keeps _ _ h.parent h.target acc all.0,
          )
          (all_hook_lines-keeps t hs wanted rules acc all.1)
  ]

  pub insert_hook-Foreign :
      (h : Hook) (ks : List Hook) → Foreign h → All Foreign ks → All Foreign (insert_hook h ks)
  unfolding insert_hook
  insert_hook-Foreign h [] f all = (f, tt)
  insert_hook-Foreign h (k ∷ ks) f all =
      elim (compare_hooks h k)
        as (λ o. All Foreign (elim o [
          | Ordering.lt ↦ h ∷ k ∷ ks
          | Ordering.eq ↦ k ∷ ks
          | Ordering.gt ↦ k ∷ insert_hook h ks
        ])) [
          | Ordering.lt ↦ (f, all)
          | Ordering.eq ↦ all
          | Ordering.gt ↦ (all.0, insert_hook-Foreign h ks f all.1)
        ]

  pub sorted_hooks-Foreign : (hs : List Hook) → All Foreign hs → All Foreign (sorted_hooks hs)
  unfolding sorted_hooks
  sorted_hooks-Foreign [] all = tt
  sorted_hooks-Foreign (h ∷ hs) all =
      insert_hook-Foreign h (sorted_hooks hs) all.0 (sorted_hooks-Foreign hs all.1)

  pub drop_chains-keeps :
      (cs desired present : List String) (acc : Filling)
      → member c desired ≡ true
      → fill_lines c (drop_chains cs desired present) acc ≡ acc
  unfolding drop_chains fill_lines
  drop_chains-keeps [] desired present acc wanted = refl
  drop_chains-keeps (d ∷ cs) desired present acc wanted =
      let rest = drop_chains-keeps cs desired present acc wanted in
      elim (Bool-cases (d === c)) [
        | inl same ↦ rw ((eq_iff d c).0 same, wanted) rest
        | inr other ↦ ground (arith, other, rest)
      ]
