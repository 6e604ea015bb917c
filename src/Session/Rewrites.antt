-- ===== src/Session/Rewrites.antt =====
-- The rewrites that are kept for carriers.
use imperial_auto_governor.Common.{
  ℕ, ◌≡◌, refl, ap, ◌∙◌, subst, Bool, true, false, Option, none, some, List, [], ◌∷◌, ◌++◌,
  if◌then◌else◌, arith, Bool-cases, inl, inr,
}
use imperial_auto_governor.Stream.{Bytes, StreamTranslator, same_bytes}
use imperial_auto_governor.Wire.Boundary.{Injection}
use imperial_auto_governor.Wire.Buildings.Sizes.{same_bytes-eq}
use imperial_auto_governor.Session.{Proxy}
use imperial_auto_governor.Session.Kept.{Untouched}
use imperial_auto_governor.Session.Packets.{find_rewrite, put_rewrite, is_nil, inject, kept_rewrite}

same_bytes_refl : (a : Bytes) → same_bytes a a ≡ true
unfolding same_bytes
same_bytes_refl [] = refl
same_bytes_refl (x ∷ xs) = ground (arith, same_bytes_refl xs)

find-put_rewrite :
    (payload : Bytes) (wires : List Bytes) (kept : List (Bytes × List Bytes))
    → find_rewrite payload (put_rewrite payload wires kept) ≡ some wires
unfolding find_rewrite put_rewrite
find-put_rewrite payload wires [] = rw (same_bytes_refl payload) refl
find-put_rewrite payload wires ((k, v) ∷ rest) = elim (Bool-cases (same_bytes k payload)) [
  | inl e ↦ rw (e, e) refl
  | inr e ↦ rw (e, e) (find-put_rewrite payload wires rest)
]

-- A rewrite for another packet.
find-put_other :
    (payload other : Bytes) (wires : List Bytes) (kept : List (Bytes × List Bytes))
    → same_bytes other payload ≡ false
    → find_rewrite payload (put_rewrite other wires kept) ≡ find_rewrite payload kept
unfolding find_rewrite put_rewrite
find-put_other payload other wires [] apart = rw apart refl
find-put_other payload other wires ((k, v) ∷ rest) apart = elim (Bool-cases (same_bytes k other)) [
  | inl e ↦
      let same = same_bytes-eq k other (rw e refl) in
      let also : same_bytes k payload ≡ false =
        ap (λ (b : Bytes). same_bytes b payload) same ∙ apart in
      rw (e, also) refl
  | inr e ↦ rw e (elim (Bool-cases (same_bytes k payload)) [
    | inl f ↦ rw f refl
    | inr f ↦ rw f (find-put_other payload other wires rest apart)
  ])
]

is_nil-snoc : (ts : List StreamTranslator) (t : StreamTranslator) → is_nil (ts ++ t ∷ []) ≡ false
is_nil-snoc [] t = refl
is_nil-snoc (u ∷ ts) t = refl

pub kept-inject :
    (now : ℕ) (original : Bytes) (serial : ℕ) (i : Injection) (p : Proxy)
    → kept_rewrite original (inject now original serial i p) ≡ some i.wire_payloads
unfolding kept_rewrite inject
kept-inject now original serial i p =
    rw
      (is_nil-snoc p.translators
        (record { injection_offset = i.injection_offset; inserted_length = i.inserted_length }))
      (find-put_rewrite original i.wire_payloads p.carrier_rewrites)

pub kept-Untouched :
    (original : Bytes) (p p' : Proxy)
    → Untouched p p'
    → kept_rewrite original p' ≡ kept_rewrite original p
unfolding kept_rewrite
kept-Untouched original p p' u =
    ap
      (λ (ts : List StreamTranslator).
        if is_nil ts then none else find_rewrite original p'.carrier_rewrites)
      u.translators
    ∙ ap
        (λ (ks : List (Bytes × List Bytes)).
          if is_nil p.translators then none else find_rewrite original ks)
        u.carrier_rewrites

if-found :
    (b : Bool) (found : Option (List Bytes)) (wires : List Bytes)
    → (if b then none else found) ≡ some wires
    → found ≡ some wires
if-found true found wires h = cc
if-found false found wires h = h

pub different :
    (other payload : Bytes) (p : Proxy) (wires : List Bytes)
    → kept_rewrite other p ≡ none
    → kept_rewrite payload p ≡ some wires
    → same_bytes other payload ≡ false
different other payload p wires missed found = elim (Bool-cases (same_bytes other payload)) [
  | inr e ↦ e
  | inl e ↦
      let same = same_bytes-eq other payload (rw e refl) in
      let none_kept : kept_rewrite payload p ≡ none =
        subst (λ b. kept_rewrite b p ≡ none) same missed in
      absurd cc
]

-- An insertion at a packet without a rewrite keeps the rewrites of the others.
pub kept-inject_other :
    (now : ℕ) (other payload : Bytes) (serial : ℕ) (i : Injection) (p : Proxy) (wires : List Bytes)
    → same_bytes other payload ≡ false
    → kept_rewrite payload p ≡ some wires
    → kept_rewrite payload (inject now other serial i p) ≡ some wires
unfolding kept_rewrite inject
kept-inject_other now other payload serial i p wires apart found =
    rw
      (
        is_nil-snoc p.translators
            (record { injection_offset = i.injection_offset; inserted_length = i.inserted_length }),
        find-put_other payload other i.wire_payloads p.carrier_rewrites apart,
      )
      (if-found (is_nil p.translators) _ wires found)
