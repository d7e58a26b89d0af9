-- ===== src/Tests/Parts.antt =====
-- A broadcast queue over a list for a heap, a suspicion, and a health score.
use mlist.Prelude.{
  ℕ, ◌+◌, ◌≡◌, refl, List, [], ◌∷◌, Option, none, some, arith, length, ◌==◌, if◌then◌else◌,
}
use mlist.Prelude.Int.{pos, ◌+ℤ◌}
use mlist.Awareness.{Awareness, IsHealthy}
use mlist.Suspicion.{Suspicion, new_suspicion}
use mlist.Broadcast.Queue.{TransmitCapItem, HeapOps, TransmitCapQueue}
use mlist.Broadcast.Picking.{IsSized}

abbrev pub first : List TransmitCapItem → Option (TransmitCapItem × List TransmitCapItem)
first [] = none
first (i ∷ is) = some (i, is)

abbrev pub without : List TransmitCapItem → ℕ → List TransmitCapItem
without [] id = []
without (i ∷ is) id = let rest = without is id in if i.id == id then rest else i ∷ rest

abbrev pub stack : HeapOps (List TransmitCapItem)
stack = record { empty = []; push = λ h i. i ∷ h; pop = first; remove = without; size = length }

first-none : (h : List TransmitCapItem) → first h ≡ none → length h ≡ 0
first-none [] e = refl
first-none (i ∷ is) e = absurd (ground arith)

first_size :
    (h h' : List TransmitCapItem) (i : TransmitCapItem)
    → first h ≡ some (i, h')
    → length h ≡ length h' + 1
first_size [] h' i e = absurd (ground arith)
first_size (j ∷ is) h' i e = ground arith

stack-IsSized : IsSized stack
stack-IsSized = record {
  size_empty = refl;
  size_push = λ h i. omega arith;
  size_pop_none = first-none;
  size_pop = first_size;
}

abbrev item1 : TransmitCapItem
item1 = record { name = "a"; id = 0; transmits = 0; msg = 4 ∷ 1 ∷ 2 ∷ [] }

abbrev item2 : TransmitCapItem
item2 = record { name = "b"; id = 1; transmits = 1; msg = 4 ∷ 3 ∷ [] }

abbrev pub waiting : TransmitCapQueue (List TransmitCapItem)
waiting = record {
  transmit_scale = 2;
  queue = item1 ∷ item2 ∷ [];
  exists = λ _. none;
  id_seq = 2;
  finished = [];
}

abbrev watch : Suspicion
watch = new_suspicion 100 10 60 2 "a" (record { id = "b"; lives = 1 })

abbrev ill : Awareness
ill = record { health = pos 5; max = pos 8 }

ill-IsHealthy : IsHealthy ill
unfolding ◌+ℤ◌
ill-IsHealthy = record { nonneg = omega arith; below_max = omega arith }
