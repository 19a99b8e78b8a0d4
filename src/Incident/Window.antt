-- ===== src/Incident/Window.antt =====
-- Which frames a bundle holds.
use k_blackbox.Base.{
  ◌+◌, ◌*◌, ◌≤◌, ◌≡◌, ◌↔◌, ◌⊎◌, inl, inr, List, [], ◌∷◌, true, false, String, arith, Bool-cases, ap,
}
use k_blackbox.Words.{Time}
use k_blackbox.Incident.{second, in_window, relevant_frames}

-- `x` is an entry of the list.
abbrev pub In : Time × String → List (Time × String) → Type 0
In x [] = ⊥
In x (y ∷ ys) = (x ≡ y) ⊎ In x ys

in_window_iff :
    (at ts : Time) → (in_window at ts ≡ true) ↔ ((at ≤ ts + 30 * second) × (ts ≤ at + 5 * second))
unfolding in_window
in_window_iff at ts = ((λ h. (ground arith, ground arith)), λ h. ground arith)

abbrev Relevant : Time → Time → String → List (Time × String) → Type 0
Relevant at ts text fs = In (ts, text) fs × (at ≤ ts + 30 * second) × (ts ≤ at + 5 * second)

abbrev Recorded : Time → Time → String → List (Time × String) → Type 0
Recorded at ts text fs = In (ts, text) (relevant_frames at fs) ↔ Relevant at ts text fs

kept :
    (at ts : Time) (text : String) (t : Time) (x : String) (fs : List (Time × String))
    → in_window at t ≡ true
    → Recorded at ts text fs
    → In (ts, text) ((t, x) ∷ relevant_frames at fs) ↔ Relevant at ts text ((t, x) ∷ fs)
kept at ts text t x fs w ih = (to, from)
  where
    bounds : (at ≤ t + 30 * second) × (t ≤ at + 5 * second)
    bounds = (in_window_iff at t).0 w

    to : In (ts, text) ((t, x) ∷ relevant_frames at fs) → Relevant at ts text ((t, x) ∷ fs)
    to (inl e) =
        let e' : ts ≡ t = ap (λ (p : Time × String). p.0) e in
        (inl e, omega (arith, bounds.0, e'), omega (arith, bounds.1, e'))
    to (inr i) = let r = ih.0 i in (inr r.0, r.1, r.2)

    from : Relevant at ts text ((t, x) ∷ fs) → In (ts, text) ((t, x) ∷ relevant_frames at fs)
    from (inl e, a, b) = inl e
    from (inr i, a, b) = inr (ih.1 (i, a, b))

dropped :
    (at ts : Time) (text : String) (t : Time) (x : String) (fs : List (Time × String))
    → in_window at t ≡ false
    → Recorded at ts text fs
    → In (ts, text) (relevant_frames at fs) ↔ Relevant at ts text ((t, x) ∷ fs)
dropped at ts text t x fs w ih = ((λ i. let r = ih.0 i in (inr r.0, r.1, r.2)), from)
  where
    from : Relevant at ts text ((t, x) ∷ fs) → In (ts, text) (relevant_frames at fs)
    from (inl e, a, b) =
        let e' : ts ≡ t = ap (λ (p : Time × String). p.0) e in
        let w' : in_window at t ≡ true =
          (in_window_iff at t).1 (omega (arith, a, e'), omega (arith, b, e')) in
        absurd (cc)
    from (inr i, a, b) = ih.1 (i, a, b)

-- A bundle holds a frame exactly when the frame was recorded from 30 seconds before to 5 seconds
-- after the incident.
pub In-relevant_frames :
    (at ts : Time) (text : String) (fs : List (Time × String))
    → In (ts, text) (relevant_frames at fs)
      ↔ (In (ts, text) fs × (at ≤ ts + 30 * second) × (ts ≤ at + 5 * second))
unfolding relevant_frames
In-relevant_frames at ts text [] = ((λ h. absurd h), λ h. absurd h.0)
In-relevant_frames at ts text ((t, x) ∷ fs) =
    let ih = In-relevant_frames at ts text fs in
    elim (Bool-cases (in_window at t)) [
      | inl w ↦ rw w (kept at ts text t x fs w ih)
      | inr w ↦ rw w (dropped at ts text t x fs w ih)
    ]
