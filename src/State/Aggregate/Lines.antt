-- ===== src/State/Aggregate/Lines.antt =====
-- `get_aggregated_events`: which events of the log the lines of the panel stand for.
use k_blackbox.Base.{
  ℕ, zero, suc, ◌≤◌, ◌≡◌, ◌≢◌, refl, sym, ap, ap₂, subst, Bool-cases, ◌∙◌, ◌⊎◌, inl, inr, List, [],
  ◌∷◌, ◌++◌, map, true, false, String, str_eq, eq_iff, length, take, drop, replicate,
  take-append-drop, ltb, arith, if◌then◌else◌,
}
use k_blackbox.Words.{Time}
use k_blackbox.State.{
  AppState, UiEvent, UiEventLogEntry, get_events, checksum_ok, checksum_mismatch, incident_exported,
  incident_captured, fault_injected,
}
use k_blackbox.State.Aggregate.{
  EventColor, normal, info, warning, failure, Arg, text, number, debug, AggregatedEvent, is_ok_for,
  run_length, line_of, aggregate, get_aggregated_events,
}

-- A text and its colour: the template, the arguments and the colour.
abbrev pub Label : Type 0
Label = String × List Arg × EventColor

-- How one event reads.
abbrev pub shown : UiEvent → Label
shown (checksum_ok symbol) = ("CHECKSUM_OK {}", text symbol ∷ [], normal)
shown (checksum_mismatch symbol) = ("CHECKSUM_MISMATCH {}", text symbol ∷ [], failure)
shown (incident_exported path) = ("INCIDENT_EXPORTED {}", text path ∷ [], info)
shown (incident_captured id reason) =
    ("INCIDENT_CAPTURED {} ({})", text id ∷ text reason ∷ [], failure)
shown (fault_injected fault_type symbol) =
    ("FAULT_INJECTED {} {}", text fault_type ∷ text symbol ∷ [], warning)
shown other = ("{:?}", debug other ∷ [], normal)

abbrev pub repeated : AggregatedEvent → List Arg → List Label
repeated l (text symbol ∷ number n ∷ []) = replicate n ("CHECKSUM_OK {}", text symbol ∷ [], l.color)
repeated l args = (l.template, args, l.color) ∷ []

-- What a line says of single events: "CHECKSUM_OK s xn" says n times "CHECKSUM_OK s", and every other
-- line says itself.
abbrev pub expand : AggregatedEvent → List Label
expand l =
    if str_eq l.template "CHECKSUM_OK {} x{}"
    then repeated l l.args
    else (l.template, l.args, l.color) ∷ []

abbrev pub labels : List UiEventLogEntry → List Label
labels es = map (λ (e : UiEventLogEntry). shown e.event) es

-- The next event, if there is one, is not another `checksum_ok` of the symbol.
abbrev pub Ends : UiEvent → List UiEventLogEntry → Type 0
Ends (checksum_ok symbol) [] = Unit
Ends (checksum_ok symbol) (e ∷ es) = e.event ≢ checksum_ok symbol
Ends other es = Unit

-- The lines stand for the events up to `rest`: each line for the event `e` whose time it has and those
-- of `run`, up to where the run ends, and the next line for what follows.
abbrev pub Stands : List AggregatedEvent → List UiEventLogEntry → List UiEventLogEntry → Type 0
Stands [] es rest = es ≡ rest
Stands (l ∷ ls) es rest =
    (e : UiEventLogEntry) × (run : List UiEventLogEntry) × (next : List UiEventLogEntry) × (es
      ≡ e ∷ (run ++ next))
    × (l.timestamp ≡ e.timestamp)
    × (expand l ≡ labels (e ∷ run))
    × Ends e.event next
    × Stands ls next rest

is_ok_for_eq : (symbol : String) (e : UiEvent) → is_ok_for symbol e ≡ true → e ≡ checksum_ok symbol
is_ok_for_eq symbol (checksum_ok s) h = ap checksum_ok ((eq_iff s symbol).0 h)
is_ok_for_eq symbol other h = absurd (ground arith)

not_ok_for : (symbol : String) (e : UiEvent) → is_ok_for symbol e ≡ false → e ≢ checksum_ok symbol
not_ok_for symbol e h same =
    let yes : str_eq symbol symbol ≡ true = (eq_iff symbol symbol).1 refl in
    absurd (ground (arith, sym (ap (is_ok_for symbol) same) ∙ h, yes))

run-labels :
    (symbol : String) (es : List UiEventLogEntry)
    → labels (take (run_length symbol es) es)
      ≡ replicate (run_length symbol es) ("CHECKSUM_OK {}", text symbol ∷ [], normal)
unfolding run_length
run-labels symbol [] = refl
run-labels symbol (e ∷ es) = elim (Bool-cases (is_ok_for symbol e.event)) [
  | inl h ↦ rw h (ap₂ ◌∷◌ (ap shown (is_ok_for_eq symbol e.event h)) (run-labels symbol es))
  | inr h ↦ rw h refl
]

run-Ends :
    (symbol : String) (es : List UiEventLogEntry)
    → Ends (checksum_ok symbol) (drop (run_length symbol es) es)
unfolding run_length
run-Ends symbol [] = tt
run-Ends symbol (e ∷ es) = elim (Bool-cases (is_ok_for symbol e.event)) [
  | inl h ↦ rw h (run-Ends symbol es)
  | inr h ↦ rw h (not_ok_for symbol e.event h)
]

-- The line for an event stands for the event and the run that it covers.
line_of-expand :
    (at : Time) (es : List UiEventLogEntry) (e : UiEvent)
    → let (l, covered) = line_of at es e in
      (l.timestamp ≡ at)
      × (expand l ≡ shown e ∷ labels (take covered es))
      × Ends e (drop covered es)
unfolding line_of
line_of-expand at es (checksum_ok symbol) = elim (Bool-cases (ltb 1 (suc (run_length symbol es)))) [
  | inl h ↦ rw h (
    refl,
    ap (λ ls. shown (checksum_ok symbol) ∷ ls) (sym (run-labels symbol es)),
    run-Ends symbol es,
  )
  | inr h ↦
      let none : run_length symbol es ≡ 0 = ground (arith, h) in
      rw h
        (refl, refl, subst (λ n. Ends (checksum_ok symbol) (drop n es)) none (run-Ends symbol es))
]
line_of-expand at es other = (refl, refl, tt)

aggregate-Stands :
    (room : ℕ) (es : List UiEventLogEntry)
    → (rest : List UiEventLogEntry) × Stands (aggregate room es) es rest
      × (length (aggregate room es) ≤ room)
      × ((rest ≡ []) ⊎ (length (aggregate room es) ≡ room))
unfolding aggregate
aggregate-Stands zero es = (es, refl, omega arith, inr refl)
aggregate-Stands (suc room) [] = ([], refl, omega arith, inl refl)
aggregate-Stands (suc room) (e ∷ es) =
    let (l, covered) = line_of e.timestamp es e.event in
    let (at, same, ends) = line_of-expand e.timestamp es e.event in
    let (rest, stands, few, all) = aggregate-Stands room (drop covered es) in
    (
      rest,
      (
        e,
        take covered es,
        drop covered es,
        ap (◌∷◌ e) (sym (take-append-drop covered es)),
        at,
        same,
        ends,
        stands,
      ),
      omega arith,
      elim all [ inl e ↦ inl e | inr e ↦ inr (omega (arith, e)) ],
    )

module _ {D F : Type 0} where
  -- Whatever the limit, the lines of the panel stand for the events of the log from the oldest on, each
  -- event in one line and in order: a line has the time of its first event, says of single events what
  -- its events read one by one, and if its first event is a `checksum_ok`, then the event after its last
  -- is not a `checksum_ok` of the same symbol. There are at most `limit` lines, and events are left over
  -- only if there are just as many.
  pub get_aggregated_events-Stands :
      (limit : ℕ) (s : AppState D F)
      → (rest : List UiEventLogEntry) × Stands
          (get_aggregated_events limit s)
          (get_events 1000 s)
          rest
        × (length (get_aggregated_events limit s) ≤ limit)
        × ((rest ≡ []) ⊎ (length (get_aggregated_events limit s) ≡ limit))
  unfolding get_aggregated_events
  get_aggregated_events-Stands limit s = aggregate-Stands limit (get_events 1000 s)
