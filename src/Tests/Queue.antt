-- ===== src/Tests/Queue.antt =====
-- Concrete runs of the expiry queue.
use rampardos.Prelude.{
  ℕ, zero, suc, ◌≤◌, ◌<◌, ◌==◌, if◌then◌else◌, ◌≡◌, inl, inr, refl, true, some, none, List, [], ◌∷◌,
  Bool-cases, ℕ_discrete, arith, ℤ, pos, negsuc, slot,
}
use rampardos.ExpiryHeap.{ExpiryItem, ExpiryHeap, parent, heap_remove}
use rampardos.ExpiryHeap.Order.{Ends, Has}
use rampardos.ExpiryHeap.Fix.{IsOrdered}
use rampardos.ExpiryHeap.Take.{Removed, heap_remove-Removed}
use rampardos.ExpiryQueue.{ExpiryQueue, sweep, delete_files, new_expiry_queue, owned_threshold}
use rampardos.ExpiryQueue.Valid.{IsValid}
use rampardos.ExpiryQueue.Schedule.{Plans}
use rampardos.ExpiryQueue.Sweeping.{Swept, sweep-Swept}
use rampardos.ExpiryQueue.Trace.{Call, add_paths, unown_paths, sweep_at, run, ideal_all, run-Plans}

abbrev item : ℕ → ℕ → ℤ → ExpiryItem ℕ
item p t i = record { path = p; expires_at = t; index = i }

-- Two files, the one under 7 due at 5 and the one under 8 due at 9.
abbrev two_items : ExpiryHeap ℕ
two_items = record {
  slots = 0 ∷ 1 ∷ [];
  items = λ a. if a == 0 then item 7 5 (pos 0) else item 8 9 (pos 1);
}

abbrev two_files : ExpiryQueue ℕ
two_files = record {
  heap = two_items;
  by_key = λ k. if k == 7 then some 0 else if k == 8 then some 1 else none;
  owned = λ k. none;
  next = 2;
}

abbrev entry : ℕ → ExpiryItem ℕ
entry c = two_items.items (slot (0 ∷ 1 ∷ []) c)

two_order : (c : ℕ) → 0 < c → c < 2 → (entry (parent c)).expires_at ≤ (entry c).expires_at
unfolding slot
two_order zero p q = absurd (omega arith)
two_order (suc zero) p q = omega arith
two_order (suc (suc c)) p q = absurd (omega arith)

two_linked : (c : ℕ) → c < 2 → (entry c).index ≡ pos c
unfolding slot
two_linked zero q = refl
two_linked (suc zero) q = refl
two_linked (suc (suc c)) q = absurd (omega arith)

two_items-IsOrdered : IsOrdered two_items
two_items-IsOrdered = record { order = two_order; linked = two_linked }

-- The two slots hold the two pointers.
two_slots : (a c : ℕ) → c < 2 → slot (0 ∷ 1 ∷ []) c ≡ a → a ≡ c
unfolding slot
two_slots a zero p e = omega arith
two_slots a (suc zero) p e = omega arith
two_slots a (suc (suc c)) p e = absurd (omega arith)

two_listed : (a : ℕ) → a < 2 → two_files.by_key (two_items.items a).path ≡ some a
two_listed zero p = refl
two_listed (suc zero) p = refl
two_listed (suc (suc a)) p = absurd (omega arith)

two_tracked :
    (k a : ℕ) → two_files.by_key k ≡ some a → Has two_items a × ((two_items.items a).path ≡ k)
unfolding slot
two_tracked k a e = elim (Bool-cases (k == 7)) [
  | inl seven ↦ let d : 0 ≡ a = ground arith in rw (← d) ((0, omega arith, refl), ground arith)
  | inr other ↦ elim (Bool-cases (k == 8)) [
    | inl eight ↦ let d : 1 ≡ a = ground arith in rw (← d) ((1, omega arith, refl), ground arith)
    | inr none_left ↦ absurd (ground arith)
  ]
]

two_files-IsValid : IsValid two_files
two_files-IsValid = record {
  ordered = two_items-IsOrdered;
  tracked = two_tracked;
  listed = λ a (c, p, e). two_listed a (omega (arith, two_slots a c p e));
  apart = λ k e. absurd (cc);
  fresh = λ a (c, p, e). omega (arith, two_slots a c p e);
}

heap_remove-Removed_example :
    Ends
      (λ r. (r.0 ≡ slot two_items.slots 0) × Removed two_items (slot two_items.slots 0) r.1)
      (heap_remove two_items (pos 0))
heap_remove-Removed_example = heap_remove-Removed two_items 0 (omega arith) two_items-IsOrdered

sweep-Swept_example :
    (r : ExpiryQueue ℕ) × (ps : List ℕ) × (sweep ℕ_discrete (λ p. p == 7) 6 two_files
      ≡ some (r, ps, delete_files (λ p. p == 7) ps))
    × Swept ℕ_discrete 6 two_files r ps
sweep-Swept_example = sweep-Swept ℕ_discrete 6 (λ p. p == 7) two_files two_files-IsValid

abbrev calls : List (Call ℕ)
calls =
    add_paths 100 (pos 5) (1 ∷ 2 ∷ [])
    ∷ add_paths 101 (pos 20) (1 ∷ [])
    ∷ add_paths 102 (pos owned_threshold) (3 ∷ [])
    ∷ sweep_at 110 (λ p. true)
    ∷ unown_paths (3 ∷ [])
    ∷ []

run-Plans_example :
    Plans ℕ_discrete
      (ideal_all ℕ_discrete (record { times = λ _. none; owners = λ _. none }) calls)
      (run ℕ_discrete (new_expiry_queue (item 0 0 (negsuc 0))) calls)
run-Plans_example = run-Plans ℕ_discrete (item 0 0 (negsuc 0)) calls
