-- ===== src/ExpiryHeap.antt =====
-- rampardos/internal/services/expiry_queue.go: expiryHeap, and Go's container/heap as it drives it.
-- The heap is a slice of pointers into a memory of items. A panic is `none`, as is fuel that ran
-- out, which the laws of the children exclude. An index stays below twice the length, so an int
-- does not overflow.
pub mod Order
pub mod Up
pub mod Down
pub mod Fix
pub mod Push
pub mod Take
use rampardos.Prelude.{
  ◌>>=◌, ℕ, zero, suc, ◌+◌, ◌-◌, ◌*◌, ◌/◌, ◌==◌, ltb, leb, if◌then◌else◌, Bool, Option, some, none,
  List, [], ◌∷◌, ◌++◌, length, take, ℤ, pos, negsuc, get_elem?, set,
}

-- A time is the number of nanoseconds since the zero time of Go.
pub record ExpiryItem {ℓ} (K : Type ℓ) : Type ℓ where
  pub path : K
  pub expires_at : ℕ
  pub index : ℤ

pub record ExpiryHeap {ℓ} (K : Type ℓ) : Type ℓ where
  pub slots : List ℕ
  pub items : ℕ → ExpiryItem K

-- `(j - 1) / 2`, which is 0 at 0 for an int as well
abbrev pub parent : ℕ → ℕ
parent j = (j - 1) / 2

module _ {ℓ} {K : Type ℓ} where
  -- `item.index = z` through the pointer
  pub set_index : (ℕ → ExpiryItem K) → ℕ → ℤ → ℕ → ExpiryItem K
  set_index m p z q = if q == p then record (m p) { index = z } else m q

  pub less : ExpiryHeap K → ℕ → ℕ → Option Bool
  less h i j = do
    a ← get_elem? h.slots i
    b ← get_elem? h.slots j
    some (ltb (h.items a).expires_at (h.items b).expires_at)

  pub swap : ExpiryHeap K → ℕ → ℕ → Option (ExpiryHeap K)
  swap h i j = do
    a ← get_elem? h.slots i
    b ← get_elem? h.slots j
    some (record {
      slots = set (set h.slots i b) j a;
      items = set_index (set_index h.items b (pos i)) a (pos j);
    })

  -- The methods Push and Pop of the slice.
  pub append : ExpiryHeap K → ℕ → ExpiryHeap K
  append h p = record {
    slots = h.slots ++ p ∷ [];
    items = set_index h.items p (pos (length h.slots));
  }

  pub cut : ExpiryHeap K → Option (ℕ × ExpiryHeap K)
  cut h = do
    p ← get_elem? h.slots (length h.slots - 1)
    some (
      p,
      record { slots = take (length h.slots - 1) h.slots; items = set_index h.items p (negsuc 0) },
    )

  pub up_loop : ℕ → ExpiryHeap K → ℕ → Option (ExpiryHeap K)
  up_loop zero h j = none
  up_loop (suc f) h j =
      let rise = swap h (parent j) j >>= λ g. up_loop f g (parent j) in
      let test = less h j (parent j) >>= λ below. if below then rise else some h in
      if parent j == j then some h else test

  pub up : ExpiryHeap K → ℕ → Option (ExpiryHeap K)
  up h j = up_loop (j + 1) h j

  pub least_child : ExpiryHeap K → ℕ → ℕ → Option ℕ
  least_child h i n =
      if ltb (2 * i + 1 + 1) n
      then (less h (2 * i + 1 + 1) (2 * i + 1) >>= λ right.
          some (if right then 2 * i + 1 + 1 else 2 * i + 1))
      else some (2 * i + 1)

  -- The slot in which the item comes to rest stands beside the heap.
  pub down_loop : ℕ → ExpiryHeap K → ℕ → ℕ → Option (ExpiryHeap K × ℕ)
  down_loop zero h i n = none
  down_loop (suc f) h i n =
      let test = least_child h i n >>= λ j.
      let sink = swap h i j >>= λ g. down_loop f g j n in
      less h j i >>= λ below. if below then sink else some (h, i) in
      if leb n (2 * i + 1) then some (h, i) else test

  pub down : ExpiryHeap K → ℕ → ℕ → Option (ExpiryHeap K × Bool)
  down h i n = down_loop (n + 1) h i n >>= λ (g, j). some (g, ltb i j)

  pub heap_push : ExpiryHeap K → ℕ → Option (ExpiryHeap K)
  heap_push h p = let g = append h p in up g (length g.slots - 1)

  -- Pop on an empty slice swaps slot -1, which panics.
  pub heap_pop : ExpiryHeap K → Option (ℕ × ExpiryHeap K)
  heap_pop h =
      let n = length h.slots - 1 in
      if length h.slots == 0 then none else (do g ← swap h 0 n; (g', _) ← down g 0 n; cut g')

  pub heap_fix : ExpiryHeap K → ℤ → Option (ExpiryHeap K)
  heap_fix h (pos i) = down h i (length h.slots) >>= λ (g, moved). if moved then some g else up g i
  heap_fix h (negsuc i) = none

  pub remove_at : ExpiryHeap K → ℕ → ℕ → Option (ExpiryHeap K)
  remove_at h i n =
      if n == i
      then some h
      else (do g ← swap h i n; (g', moved) ← down g i n; if moved then some g' else up g' i)

  pub heap_remove : ExpiryHeap K → ℤ → Option (ℕ × ExpiryHeap K)
  heap_remove h (pos i) = remove_at h i (length h.slots - 1) >>= cut
  heap_remove h (negsuc i) = none
