-- ===== src/Models/Calls/Unique.antt =====
-- The candidates of a pool with different identifiers have different identifiers, and come from its slots.
use imperial_auto_governor.Common.{
  ℕ, ◌≡◌, refl, Bool, true, false, str_eq, eq_iff, List, [], ◌∷◌, arith, All, All-select, In,
  In-select, map, select, inl, inr, Bool-cases, if◌then◌else◌,
}
use imperial_auto_governor.Common.Text.{sort, insert_ordered}
use imperial_auto_governor.Models.{
  ModelEndpoint, EndpointHealth, PoolRuntime, Slots, ProviderFilter, candidates, may_call,
  earlier_slot,
}

-- The identifiers in a list are different.
unfoldable pub IsUnique : List ModelEndpoint → Type 0
IsUnique [] = Unit
IsUnique (e ∷ es) =
    All (λ (d : ModelEndpoint). str_eq e.endpoint_id d.endpoint_id ≡ false) es × IsUnique es

abbrev Slot : Type 0
Slot = ModelEndpoint × EndpointHealth

abbrev Differ : Slot → Slot → Type 0
Differ s t = str_eq s.0.endpoint_id t.0.endpoint_id ≡ false

unfoldable IsUniqueSlots : Slots → Type 0
IsUniqueSlots [] = Unit
IsUniqueSlots (s ∷ ss) = All (Differ s) ss × IsUniqueSlots ss

All-insert_ordered :
    (P : Slot → Type 0) (s : Slot) (ss : Slots)
    → P s
    → All P ss
    → All P (insert_ordered earlier_slot s ss)
unfolding insert_ordered
All-insert_ordered P s [] own h = (own, tt)
All-insert_ordered P s (t ∷ ss) own (first, h) = elim (Bool-cases (earlier_slot s t)) [
  | inl e ↦ rw e (own, (first, h))
  | inr e ↦ rw e (first, All-insert_ordered P s ss own h)
]

pub All-sort : (P : Slot → Type 0) (ss : Slots) → All P ss → All P (sort earlier_slot ss)
unfolding sort
All-sort P [] h = tt
All-sort P (s ∷ ss) (own, h) = All-insert_ordered P s (sort earlier_slot ss) own (All-sort P ss h)

Differ-sym : (s t : Slot) → Differ s t → Differ t s
Differ-sym s t h =
    ground (arith, eq_iff s.0.endpoint_id t.0.endpoint_id, eq_iff t.0.endpoint_id s.0.endpoint_id)

insert_ordered-IsUniqueSlots :
    (s : Slot) (ss : Slots)
    → All (Differ s) ss
    → IsUniqueSlots ss
    → IsUniqueSlots (insert_ordered earlier_slot s ss)
unfolding insert_ordered IsUniqueSlots
insert_ordered-IsUniqueSlots s [] apart h = (tt, tt)
insert_ordered-IsUniqueSlots s (t ∷ ss) (first, apart) (own, h) =
    elim (Bool-cases (earlier_slot s t)) [
      | inl e ↦ rw e ((first, apart), (own, h))
      | inr e ↦ rw e (
        All-insert_ordered (Differ t) s ss (Differ-sym s t first) own,
        insert_ordered-IsUniqueSlots s ss apart h,
      )
    ]

sort-IsUniqueSlots : (ss : Slots) → IsUniqueSlots ss → IsUniqueSlots (sort earlier_slot ss)
unfolding sort IsUniqueSlots
sort-IsUniqueSlots [] h = tt
sort-IsUniqueSlots (s ∷ ss) (own, h) =
    insert_ordered-IsUniqueSlots s (sort earlier_slot ss) (All-sort (Differ s) ss own)
      (sort-IsUniqueSlots ss h)

unique_kept :
    (b : Bool) (s : Slot) (ss : Slots)
    → All (Differ s) ss
    → IsUniqueSlots ss
    → IsUniqueSlots (if b then s ∷ ss else ss)
unfolding IsUniqueSlots
unique_kept true s ss own h = (own, h)
unique_kept false s ss own h = h

select-IsUniqueSlots :
    (p : Slot → Bool) (ss : Slots) → IsUniqueSlots ss → IsUniqueSlots (select p ss)
unfolding IsUniqueSlots
select-IsUniqueSlots p [] h = tt
select-IsUniqueSlots p (s ∷ ss) (own, h) =
    unique_kept (p s) s (select p ss) (All-select (Differ s) p ss own) (select-IsUniqueSlots p ss h)

abbrev pub endpoints_of : Slots → List ModelEndpoint
endpoints_of ss = map (λ (s : Slot). s.0) ss

apart_endpoints :
    (s : Slot) (ss : Slots)
    → All (Differ s) ss
    → All (λ (d : ModelEndpoint). str_eq s.0.endpoint_id d.endpoint_id ≡ false) (endpoints_of ss)
apart_endpoints s [] h = tt
apart_endpoints s (t ∷ ss) (own, h) = (own, apart_endpoints s ss h)

endpoints_IsUnique : (ss : Slots) → IsUniqueSlots ss → IsUnique (endpoints_of ss)
unfolding IsUnique IsUniqueSlots
endpoints_IsUnique [] h = tt
endpoints_IsUnique (s ∷ ss) (own, h) = (apart_endpoints s ss own, endpoints_IsUnique ss h)

apart_slots :
    (s : Slot) (ss : Slots)
    → All (λ (d : ModelEndpoint). str_eq s.0.endpoint_id d.endpoint_id ≡ false) (endpoints_of ss)
    → All (Differ s) ss
apart_slots s [] h = tt
apart_slots s (t ∷ ss) (own, h) = (own, apart_slots s ss h)

slots_unique : (ss : Slots) → IsUnique (endpoints_of ss) → IsUniqueSlots ss
unfolding IsUnique IsUniqueSlots
slots_unique [] h = tt
slots_unique (s ∷ ss) (own, h) = (apart_slots s ss own, slots_unique ss h)

pub candidates-IsUnique :
    (now : ℕ) (provider : ProviderFilter) (require_tools : Bool) (r : PoolRuntime)
    → IsUnique (endpoints_of r.slots)
    → IsUnique (candidates now provider require_tools r)
unfolding candidates
candidates-IsUnique now provider require_tools r h =
    endpoints_IsUnique (select (may_call now provider require_tools) (sort earlier_slot r.slots)) (
      select-IsUniqueSlots (may_call now provider require_tools) (sort earlier_slot r.slots)
        (sort-IsUniqueSlots r.slots (slots_unique r.slots h)))

In-endpoints_of :
    (ss : Slots) (e : ModelEndpoint) → In e (endpoints_of ss) → (h : EndpointHealth) × In (e, h) ss
In-endpoints_of [] e there = elim there [ ]
In-endpoints_of ((d, h) ∷ ss) e (inl same) = (h, inl (rw same refl))
In-endpoints_of ((d, h) ∷ ss) e (inr below) =
    let (g, there) = In-endpoints_of ss e below in (g, inr there)

All-In : (P : Slot → Type 0) (ss : Slots) (s : Slot) → All P ss → In s ss → P s
All-In P [] s h there = elim there [ ]
All-In P (t ∷ ss) s (own, h) (inl same) = rw (← same) own
All-In P (t ∷ ss) s (own, h) (inr below) = All-In P ss s h below

-- A candidate has a health with which it may be called, and what holds of every slot holds of it.
pub candidates-In :
    (now : ℕ) (provider : ProviderFilter) (require_tools : Bool) (r : PoolRuntime)
    (P : Slot → Type 0) (e : ModelEndpoint)
    → All P r.slots
    → In e (candidates now provider require_tools r)
    → (h : EndpointHealth) × P (e, h) × (may_call now provider require_tools (e, h) ≡ true)
unfolding candidates
candidates-In now provider require_tools r P e holds there =
    let sorted = sort earlier_slot r.slots in
    let (h, chosen) =
      In-endpoints_of (select (may_call now provider require_tools) sorted) e there in
    let (within, passes) = In-select (may_call now provider require_tools) sorted (e, h) chosen in
    (h, All-In P sorted (e, h) (All-sort P r.slots holds) within, passes)
