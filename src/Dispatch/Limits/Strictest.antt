-- ===== src/Dispatch/Limits/Strictest.antt =====
-- The effective caps against each block (scripts/run_campaign_parallel.py).
use failure_prediction.Prelude.{
  ℕ, min, ◌≤◌, true, false, Option, none, some, [], ◌∷◌, ◌≡◌, refl, ap, sym, ◌∙◌, if_either, arith,
  ◌==◌, Bool-cases, inl, inr, All,
}
use failure_prediction.Prelude.Result.{ok}
use failure_prediction.Dispatch.Limits.{
  Block, CapMap, or_cap, put, declare_caps, apply_flags, resolve_system_concurrency,
}

-- A system has a cap, and it is at most `cap`.
abbrev pub Within : Option ℕ → ℕ → Type 0
Within none cap = ⊥
Within (some x) cap = x ≤ cap

-- Every entry of a block is kept, or made stricter.
abbrev pub Keeps : CapMap → Block → Type 0
Keeps caps [] = Unit
Keeps caps ((system, cap) ∷ block) = Within (caps system) cap × Keeps caps block

-- Whatever `caps` limits, `caps'` limits as strictly.
abbrev IsTighter : CapMap → CapMap → Type 0
IsTighter caps caps' = (s cap : ℕ) → Within (caps s) cap → Within (caps' s) cap

put-IsTighter :
    (caps : CapMap) (system cap : ℕ)
    → IsTighter caps (put system (min cap (or_cap (caps system) cap)) caps)
put-IsTighter caps system cap s x h = elim (Bool-cases (s == system)) [
  | inl e ↦
      let q : s ≡ system = ground arith in rw e (put_own (caps s) (caps system) cap x (ap caps q) h)
  | inr e ↦ rw e h
]
  where
    put_own :
        (o o' : Option ℕ) (c y : ℕ) → o ≡ o' → Within o y → Within (some (min c (or_cap o' c))) y
    put_own none o' c y p k = elim k [ ]
    put_own (some z) none c y p k = absurd (cc)
    put_own (some z) (some z') c y p k = let q : z ≡ z' = cc in omega (arith, q, k)

put-Within :
    (caps : CapMap) (system cap : ℕ)
    → Within (put system (min cap (or_cap (caps system) cap)) caps system) cap
put-Within caps system cap = rw same (omega arith)
  where
    same : (system == system) ≡ true
    same = ground arith

declare_caps-IsTighter : (block : Block) (caps : CapMap) → IsTighter caps (declare_caps block caps)
unfolding declare_caps
declare_caps-IsTighter [] caps s x h = h
declare_caps-IsTighter ((system, cap) ∷ block) caps s x h =
    declare_caps-IsTighter block (put system (min cap (or_cap (caps system) cap)) caps) s x
      (put-IsTighter caps system cap s x h)

declare_caps-Keeps : (block : Block) (caps : CapMap) → Keeps (declare_caps block caps) block
unfolding declare_caps
declare_caps-Keeps [] caps = tt
declare_caps-Keeps ((system, cap) ∷ block) caps =
    let caps' = put system (min cap (or_cap (caps system) cap)) caps in
    (
      declare_caps-IsTighter block caps' system cap (put-Within caps system cap),
      declare_caps-Keeps block caps',
    )

Keeps-IsTighter :
    (caps caps' : CapMap) (block : Block)
    → IsTighter caps caps'
    → Keeps caps block
    → Keeps caps' block
Keeps-IsTighter caps caps' [] h k = tt
Keeps-IsTighter caps caps' ((system, cap) ∷ block) h (k, ks) =
    (h system cap k, Keeps-IsTighter caps caps' block h ks)

-- No system stands twice in a block.
abbrev pub Lacks : ℕ → Block → Type 0
Lacks s block = All (λ e. (s == e.0) ≡ false) block

abbrev pub IsDictionary : Block → Type 0
IsDictionary [] = Unit
IsDictionary (e ∷ block) = Lacks e.0 block × IsDictionary block

module _ (declared : CapMap) where
  abbrev flagged : ℕ → ℕ → CapMap → CapMap
  flagged system cap effective = put system (min cap (or_cap (declared system) cap)) effective

  flagged-IsTighter :
      (system cap : ℕ) (effective : CapMap)
      → IsTighter declared effective
      → IsTighter declared (flagged system cap effective)
  flagged-IsTighter system cap effective h s x k =
      if_either (λ o. Within o x) (s == system)
        (λ e.
          let q : s ≡ system = ground arith in
          let own = put-IsTighter declared system cap s x k in rw e at own)
        (λ e. h s x k)

  apply_flags-IsTighter :
      (block : Block) (effective caps : CapMap)
      → apply_flags declared block effective ≡ ok caps
      → IsTighter declared effective
      → IsTighter declared caps
  unfolding apply_flags
  apply_flags-IsTighter [] effective caps h k s x w =
      let q : effective ≡ caps = cc in rw⁻¹ q (k s x w)
  apply_flags-IsTighter ((system, cap) ∷ block) effective caps h k s x w =
      apply_flags-IsTighter block (flagged system cap effective) caps (ground arith)
        (flagged-IsTighter system cap effective k) s x w

  apply_flags-other :
      (block : Block) (effective caps : CapMap) (s : ℕ)
      → apply_flags declared block effective ≡ ok caps
      → Lacks s block
      → caps s ≡ effective s
  unfolding apply_flags
  apply_flags-other [] effective caps s h k = let q : effective ≡ caps = cc in ap (λ f. f s) (sym q)
  apply_flags-other ((system, cap) ∷ block) effective caps s h (k, ks) =
      apply_flags-other block (flagged system cap effective) caps s (ground arith) ks ∙ rw k refl

  apply_flags-Keeps :
      (block : Block) (effective caps : CapMap)
      → apply_flags declared block effective ≡ ok caps
      → IsDictionary block
      → Keeps caps block
  unfolding apply_flags
  apply_flags-Keeps [] effective caps h k = tt
  apply_flags-Keeps ((system, cap) ∷ block) effective caps h (k, ks) =
      let rest : apply_flags declared block (flagged system cap effective) ≡ ok caps =
        ground arith in
      (
        rw (apply_flags-other block (flagged system cap effective) caps system rest k)
            (own effective system (min cap (or_cap (declared system) cap)) cap (omega arith)),
        apply_flags-Keeps block (flagged system cap effective) caps rest ks,
      )
    where
      own : (f : CapMap) (s c x : ℕ) → c ≤ x → Within (put s c f s) x
      own f s c x h = let same : (s == s) ≡ true = ground arith in rw same h

-- The effective caps are at least as strict as every cap of the manifest, of the amendment and of the
-- command line, whose flags name each system once.
pub resolve_system_concurrency-Keeps :
    (manifest flags amendment : Block) (caps : CapMap)
    → IsDictionary flags
    → resolve_system_concurrency manifest flags amendment ≡ ok caps
    → Keeps caps manifest × Keeps caps amendment × Keeps caps flags
unfolding resolve_system_concurrency
resolve_system_concurrency-Keeps manifest flags amendment caps dictionary h =
    let first = declare_caps manifest (λ s. none) in
    let declared = declare_caps amendment first in
    let tighter = apply_flags-IsTighter declared flags declared caps h (λ s x w. w) in
    (
      Keeps-IsTighter declared caps manifest tighter (
          Keeps-IsTighter first declared manifest (declare_caps-IsTighter amendment first)
            (declare_caps-Keeps manifest (λ s. none))),
      Keeps-IsTighter declared caps amendment tighter (declare_caps-Keeps amendment first),
      apply_flags-Keeps declared flags declared caps h dictionary,
    )
