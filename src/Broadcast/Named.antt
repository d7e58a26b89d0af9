-- ===== src/Broadcast/Named.antt =====
-- broadcast.go: the queue holds at most one message of a name, and no ID twice. Between a `Pop` and the
-- `Push` that follows it items are in neither heap nor map: they float.
pub mod Push
pub mod Queue
pub mod Take
pub mod Run
use Prim.Native.String.{String}
use mlist.Prelude.{
  ℕ, ◌+◌, ◌≤◌, ◌≡◌, ap, List, [], ◌∷◌, Bool, true, false, ◌&&◌, Option, none, some, arith, ◌==◌,
  length, Option-cases, inl, inr, if_pos, if_neg, subst,
}
use mlist.Prelude.Maps.{str_dec, same, delete}
use mlist.Broadcast.Queue.{TransmitCapItem, HeapOps, TransmitCapQueue, pop}

abbrev pub bit : Bool → ℕ
bit true = 1
bit false = 0

abbrev pub count_of : (TransmitCapItem → Bool) → List TransmitCapItem → ℕ
count_of t [] = 0
count_of t (i ∷ is) = bit (t i) + count_of t is

abbrev pub named : String → TransmitCapItem → Bool
named n i = same i.name n

abbrev pub has_id : ℕ → TransmitCapItem → Bool
has_id k i = i.id == k

abbrev pub both : String → ℕ → TransmitCapItem → Bool
both n k i = same i.name n && i.id == k

pub both-le :
    (n : String) (k : ℕ) (l : List TransmitCapItem)
    → (count_of (both n k) l ≤ count_of (named n) l)
      × (count_of (both n k) l ≤ count_of (has_id k) l)
both-le n k [] = (omega arith, omega arith)
both-le n k (i ∷ is) = let (a, b) = both-le n k is in (ground arith, ground arith)

pub same-yes : (s t : String) → s ≡ t → same s t ≡ true
same-yes s t e = elim (str_dec s t) [ yes p ↦ ground arith | no p ↦ absurd (p e) ]

pub same-no : (s t : String) → ¬ (s ≡ t) → same s t ≡ false
same-no s t ne = elim (str_dec s t) [ yes p ↦ absurd (ne p) | no p ↦ ground arith ]

-- What the documentation of the heap says, of the list of its items in some order.
pub record IsHeap {H : Type 0} (ops : HeapOps H) : Type 0 where
  pub items : H → List TransmitCapItem
  pub items_empty : items ops.empty ≡ []
  pub size_items : (h : H) → ops.size h ≡ length (items h)
  pub count_push :
      (h : H) (i : TransmitCapItem) (t : TransmitCapItem → Bool)
      → count_of t (items (ops.push h i)) ≡ bit (t i) + count_of t (items h)
  pub count_pop :
      (h h' : H) (i : TransmitCapItem) (t : TransmitCapItem → Bool)
      → ops.pop h ≡ some (i, h')
      → count_of t (items h) ≡ bit (t i) + count_of t (items h')
  -- An ID that one item has is taken out with that item.
  pub count_remove :
      (h : H) (k : ℕ)
      → count_of (has_id k) (items h) ≡ 1
      → (i : TransmitCapItem) × (i.id ≡ k)
        × ((t : TransmitCapItem → Bool)
            → count_of t (items h) ≡ bit (t i) + count_of t (items (ops.remove h k)))
  -- Whatever the ID, nothing is put in.
  pub remove_adds_none :
      (h : H) (k : ℕ) (t : TransmitCapItem → Bool)
      → count_of t (items (ops.remove h k)) ≤ count_of t (items h)

module _ {H : Type 0} (ops : HeapOps H) (heap : IsHeap ops) where
  -- What the map says of a name.
  abbrev pub Known : String → Option TransmitCapItem → List TransmitCapItem → Type 0
  Known n none l = count_of (named n) l ≡ 0
  Known n (some i) l = count_of (both n i.id) l ≡ 1

  -- The map is right for each name but one, or for all.
  pub record IsNamed (q : TransmitCapQueue H) (floating : List TransmitCapItem) : Type 0 where
    pub name_once :
        (n : String)
        → same n "" ≡ false
        → count_of (named n) (heap.items q.queue) + count_of (named n) floating ≤ 1
    pub id_once :
        (k : ℕ) → count_of (has_id k) (heap.items q.queue) + count_of (has_id k) floating ≤ 1
    pub id_old :
        (k : ℕ)
        → q.id_seq ≤ k
        → count_of (has_id k) (heap.items q.queue) + count_of (has_id k) floating ≡ 0
    pub known : (n : String) → same n "" ≡ false → Known n (q.exists n) (heap.items q.queue)

  -- Only the counts matter of what floats.
  pub IsNamed-counts :
      (q : TransmitCapQueue H) (f f' : List TransmitCapItem)
      → ((t : TransmitCapItem → Bool) → count_of t f' ≤ count_of t f)
      → IsNamed q f
      → IsNamed q f'
  IsNamed-counts q f f' same_counts h = record {
    name_once = λ n ne. omega (arith, h.name_once n ne, same_counts (named n));
    id_once = λ k. omega (arith, h.id_once k, same_counts (has_id k));
    id_old = λ k old. omega (arith, h.id_old k old, same_counts (has_id k));
    known = h.known;
  }

  Known-pop :
      (n : String) (i : TransmitCapItem) (exists : String → Option TransmitCapItem)
      (l l' : List TransmitCapItem)
      → ((t : TransmitCapItem → Bool) → count_of t l ≡ bit (t i) + count_of t l')
      → count_of (named n) l ≤ 1
      → Known n (exists n) l
      → Known n (delete str_dec i.name exists n) l'
  Known-pop n i exists l l' counts once h = elim (str_dec i.name n) [
    | yes p ↦ rw (if_pos _ p) (omega (arith, counts (named n), once, ap bit (same-yes i.name n p)))
    | no p ↦ rw (if_neg _ p) (keeps (exists n) (same-no i.name n p) h)
  ]
    where
      keeps : (e : Option TransmitCapItem) → same i.name n ≡ false → Known n e l → Known n e l'
      keeps none other h = omega (arith, counts (named n))
      keeps (some j) other h = ground (arith, counts (both n j.id))

  taken-IsNamed :
      (q : TransmitCapQueue H) (h' : H) (i : TransmitCapItem) (f : List TransmitCapItem)
      → ops.pop q.queue ≡ some (i, h')
      → IsNamed q f
      → IsNamed (record q { queue = h'; exists = delete str_dec i.name q.exists }) (i ∷ f)
  taken-IsNamed q h' i f e h =
      let counts = λ (t : TransmitCapItem → Bool). heap.count_pop q.queue h' i t e in
      record {
        name_once = λ n ne. omega (arith, h.name_once n ne, counts (named n));
        id_once = λ k. omega (arith, h.id_once k, counts (has_id k));
        id_old = λ k old. omega (arith, h.id_old k old, counts (has_id k));
        known = λ n ne.
            Known-pop n i q.exists (heap.items q.queue) (heap.items h') counts
              (omega (arith, h.name_once n ne)) (h.known n ne);
      }

  -- The item that is popped floats.
  pub pop-IsNamed :
      (q q' : TransmitCapQueue H) (i : TransmitCapItem) (f : List TransmitCapItem)
      → pop ops q ≡ some (i, q')
      → IsNamed q f
      → IsNamed q' (i ∷ f)
  unfolding pop
  pop-IsNamed q q' i f e h = elim (Option-cases (ops.pop q.queue)) [
    | inl bad ↦ absurd (ground arith)
    | inr ((i0, h'), got) ↦
        let same_item : i0 ≡ i = ground arith in
        let same_queue : record q { queue = h'; exists = delete str_dec i0.name q.exists } ≡ q' =
          ground arith in
        subst (λ x. IsNamed x (i ∷ f)) same_queue
          (subst
            (λ x.
              IsNamed (record q { queue = h'; exists = delete str_dec i0.name q.exists }) (x ∷ f))
            same_item (taken-IsNamed q h' i0 f got h))
  ]
