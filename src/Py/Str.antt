-- ===== src/Py/Str.antt =====
-- The methods of `str` that the code calls, over lists of code points.
use cyclone_distributed_task.Prelude.{
  ℕ, suc, ◌≡◌, ◌≢◌, refl, Bool, true, false, ◌&&◌, ◌||◌, Option, none, some, List, [], ◌∷◌, ◌++◌,
  ◌∙◌, arith, All, Text, is_nil, text_beq, nat_beq, nat_beq_iff, leb, if◌then◌else◌, ap, Bool-cases,
  inl, inr,
}

-- `s.find(c)`: the first position of a character
unfoldable pub find : ℕ → Text → Option ℕ
find c [] = none
find c (d ∷ s) =
    let rest = find c s in
    if nat_beq d c then some 0 else elim rest [ none ↦ none | some i ↦ some (suc i) ]

abbrev cons_head : ℕ → List Text → List Text
cons_head c [] = (c ∷ []) ∷ []
cons_head c (p ∷ ps) = (c ∷ p) ∷ ps

-- `s.split(sep)` for a separator of one character
unfoldable pub split : ℕ → Text → List Text
split sep [] = [] ∷ []
split sep (c ∷ s) = let rest = split sep s in if nat_beq c sep then [] ∷ rest else cons_head c rest

-- `a + sep + b + sep + …`
unfoldable pub join : ℕ → List Text → Text
join sep [] = []
join sep (p ∷ []) = p
join sep (p ∷ q ∷ ps) = p ++ (sep ∷ join sep (q ∷ ps))

unfoldable pub starts_with : Text → Text → Bool
starts_with [] s = true
starts_with (p ∷ ps) [] = false
starts_with (p ∷ ps) (c ∷ s) = nat_beq p c && starts_with ps s

-- `part in s`
unfoldable pub contains : Text → Text → Bool
unfolding starts_with
contains part [] = is_nil part
contains part (c ∷ s) = starts_with part (c ∷ s) || contains part s

-- `s.endswith(part)`
unfoldable pub ends_with : Text → Text → Bool
ends_with part [] = is_nil part
ends_with part (c ∷ s) = text_beq part (c ∷ s) || ends_with part s

-- the ASCII characters that `str.isspace` accepts
abbrev pub is_space : ℕ → Bool
is_space c = (leb 9 c && leb c 13) || (leb 28 c && leb c 32)

unfoldable pub lstrip : Text → Text
lstrip [] = []
lstrip (c ∷ s) = let rest = lstrip s in if is_space c then rest else c ∷ s

unfoldable pub rstrip : Text → Text
rstrip [] = []
rstrip (c ∷ s) = let rest = rstrip s in if is_nil rest && is_space c then [] else c ∷ rest

unfoldable pub strip : Text → Text
unfolding lstrip rstrip
strip s = rstrip (lstrip s)

abbrev pub Lacks : ℕ → Text → Type 0
Lacks c = All (λ d. d ≢ c)

pub split-Lacks : (sep : ℕ) (p : Text) → Lacks sep p → split sep p ≡ p ∷ []
unfolding split
split-Lacks sep [] h = refl
split-Lacks sep (c ∷ p) h = ground (arith, split-Lacks sep p h.1)

-- A separator behind a text without one ends the first part.
pub split-append_sep :
    (sep : ℕ) (p s : Text) → Lacks sep p → split sep (p ++ (sep ∷ s)) ≡ p ∷ split sep s
unfolding split
split-append_sep sep [] s h = ground arith
split-append_sep sep (c ∷ p) s h = ground (arith, split-append_sep sep p s h.1)

-- Splitting what was joined gives the parts back, if none holds the separator.
pub split-join :
    (sep : ℕ) (p : Text) (ps : List Text)
    → Lacks sep p
    → All (Lacks sep) ps
    → split sep (join sep (p ∷ ps)) ≡ p ∷ ps
unfolding join
split-join sep p [] h hs = split-Lacks sep p h
split-join sep p (q ∷ ps) h hs =
    split-append_sep sep p (join sep (q ∷ ps)) h ∙ ap (λ r. p ∷ r) (split-join sep q ps hs.0 hs.1)

split-ne-nil : (sep : ℕ) (s : Text) → (p : Text) × (ps : List Text) × (split sep s ≡ p ∷ ps)
unfolding split
split-ne-nil sep [] = ([], [], refl)
split-ne-nil sep (c ∷ s) =
    let (p, ps, e) = split-ne-nil sep s in
    elim (Bool-cases (nat_beq c sep)) [
      | inl y ↦ ([], split sep s, rw y)
      | inr n ↦ (c ∷ p, ps, rw (n, e))
    ]

-- Joining the parts of a split gives the text back.
pub join-split : (sep : ℕ) (s : Text) → join sep (split sep s) ≡ s
unfolding split join
join-split sep [] = refl
join-split sep (c ∷ s) =
    let (p, ps, e) = split-ne-nil sep s in
    let ih : join sep (p ∷ ps) ≡ s = rw (← e) (join-split sep s) in
    elim (Bool-cases (nat_beq c sep)) [
      | inl y ↦ rw (y, e) (cc (ih, (nat_beq_iff c sep).0 y))
      | inr n ↦ rw (n, e) (go p ps ih)
    ]
  where
    go : (p : Text) (ps : List Text) → join sep (p ∷ ps) ≡ s → join sep ((c ∷ p) ∷ ps) ≡ c ∷ s
    go p [] h = ap (λ r. c ∷ r) h
    go p (q ∷ ps) h = ap (λ r. c ∷ r) h

abbrev pub HasNoSpace : Text → Type 0
HasNoSpace = All (λ c. is_space c ≡ false)

pub strip-HasNoSpace : (s : Text) → HasNoSpace s → strip s ≡ s
unfolding strip
strip-HasNoSpace [] h = refl
strip-HasNoSpace (c ∷ s) h = rw h.0 (right (c ∷ s) h)
  where
    right : (t : Text) → HasNoSpace t → rstrip t ≡ t
    right [] h = refl
    right (d ∷ t) h = ground (arith, right t h.1)
