-- ===== src/Integrity/Proof.antt =====
-- crates/blackbox-server/src/integrity/proof.rs and incident.rs.
use k_blackbox.Base.{
  ℕ, zero, suc, ◌+◌, ◌-◌, ◌%◌, ◌≤◌, ◌<◌, ◌≡◌, ◌⊎◌, inl, inr, refl, min, List, [], ◌∷◌, ◌++◌, Bool,
  Option, none, some, String, leb, ◌==◌, if◌then◌else◌, length, get_elem?, trim_front, drop, ◌∙◌,
  push_window, push_window-eq, trim_front-eq-drop, length-trim_front, arith,
}
use k_blackbox.Decimal.{Text, Level}
use k_blackbox.Words.{Time, Float, u64_mod}

pub record IntegrityProof (D : Type 0) : Type 0 where
  pub expected_checksum : ℕ
  pub computed_checksum : ℕ
  pub checksum_preview : Text
  pub checksum_len : ℕ
  pub top_asks : List (Level D)
  pub top_bids : List (Level D)
  pub verify_latency_ms : ℕ
  pub last_verify_ts : Time
  pub last_mismatch_ts : Option Time
  -- The two checksums that the text of the diagnosis shows.
  pub diagnosis : Option (ℕ × ℕ)
  pub latency_history : List ℕ

pub record LatencyStats (F : Type 0) : Type 0 where
  pub last_ms : ℕ
  pub avg_ms : F
  pub p95_ms : ℕ

pub record IncidentMeta : Type 0 where
  pub id : String
  pub symbol : String
  pub reason : String
  pub created_at : Time
  pub zip_path : Option String
  pub frames_path : Option String
  pub frame_count : ℕ

unfoldable pub new_meta : Time → String → String → String → IncidentMeta
new_meta now id symbol reason = record {
  id = id;
  symbol = symbol;
  reason = reason;
  created_at = now;
  zip_path = none;
  frames_path = none;
  frame_count = 0;
}

-- std's `sort` of numbers.
sort_in : ℕ → List ℕ → List ℕ
sort_in x [] = x ∷ []
sort_in x (y ∷ ys) = if leb x y then x ∷ y ∷ ys else y ∷ sort_in x ys

unfoldable pub sort : List ℕ → List ℕ
unfolding sort_in
sort [] = []
sort (x ∷ xs) = sort_in x (sort xs)

-- `iter().sum()` of u64.
unfoldable pub sum : List ℕ → ℕ
sum [] = 0
sum (x ∷ xs) = (x + sum xs) % u64_mod

abbrev pub or_0 : Option ℕ → ℕ
or_0 none = 0
or_0 (some x) = x

-- `0.95` is an argument beside the other float operations.
abbrev pub stats_of : {F : Type 0} → Float F → F → ℕ → List ℕ → LatencyStats F
stats_of f share last [] = record { last_ms = last; avg_ms = f.of_u64 last; p95_ms = last }
stats_of f share last (x ∷ xs) =
    let sorted : List ℕ = sort (x ∷ xs) in
    let p95_index : ℕ = f.to_usize (f.mul (f.of_u64 (length sorted)) share) in
    record {
      last_ms = last;
      avg_ms = f.div (f.of_u64 (sum sorted)) (f.of_u64 (length sorted));
      p95_ms = or_0 (get_elem? sorted (min p95_index (length sorted - 1)));
    }

module _ {D : Type 0} where
  unfoldable pub new : Time → IntegrityProof D
  new now = record {
    expected_checksum = 0;
    computed_checksum = 0;
    checksum_preview = [];
    checksum_len = 0;
    top_asks = [];
    top_bids = [];
    verify_latency_ms = 0;
    last_verify_ts = now;
    last_mismatch_ts = none;
    diagnosis = none;
    latency_history = [];
  }

  unfoldable pub is_match : IntegrityProof D → Bool
  is_match p = p.expected_checksum == p.computed_checksum

  unfoldable pub record_latency : ℕ → IntegrityProof D → IntegrityProof D
  record_latency ms p = record p {
    verify_latency_ms = ms;
    latency_history = trim_front 1000 (p.latency_history ++ ms ∷ []);
  }

  unfoldable pub latency_stats : {F : Type 0} → Float F → F → IntegrityProof D → LatencyStats F
  latency_stats f share p = stats_of f share p.verify_latency_ms p.latency_history

-- `x` is an entry of the list.
abbrev pub In : ℕ → List ℕ → Type 0
In x [] = ⊥
In x (y ∷ ys) = (x ≡ y) ⊎ In x ys

In-sort_in : (x y : ℕ) (ys : List ℕ) → In x (sort_in y ys) → (x ≡ y) ⊎ In x ys
unfolding sort_in
In-sort_in x y [] h = h
In-sort_in x y (z ∷ zs) h = ground (arith, In-sort_in x y zs)

In-sort : (x : ℕ) (ys : List ℕ) → In x (sort ys) → In x ys
unfolding sort
In-sort x [] h = h
In-sort x (y ∷ ys) h = ground (arith, In-sort_in x y (sort ys) h, In-sort x ys)

length-sort_in : (y : ℕ) (ys : List ℕ) → length (sort_in y ys) ≡ suc (length ys)
unfolding sort_in
length-sort_in y [] = refl
length-sort_in y (z ∷ zs) = ground (arith, length-sort_in y zs)

length-sort : (ys : List ℕ) → length (sort ys) ≡ length ys
unfolding sort
length-sort [] = refl
length-sort (y ∷ ys) = omega (arith, length-sort_in y (sort ys), length-sort ys)

In-get_elem? : (ys : List ℕ) (i : ℕ) → i < length ys → In (or_0 (get_elem? ys i)) ys
In-get_elem? [] i h = absurd (omega arith)
In-get_elem? (y ∷ ys) zero h = inl refl
In-get_elem? (y ∷ ys) (suc i) h = inr (In-get_elem? ys i (omega arith))

module _ {F : Type 0} (f : Float F) (share : F) where
  p95_of :
      (last : ℕ) (xs : List ℕ)
      → In (stats_of f share last xs).p95_ms xs
        ⊎ ((xs ≡ []) × ((stats_of f share last xs).p95_ms ≡ last))
  p95_of last [] = inr (refl, refl)
  p95_of last (x ∷ xs) =
      inl
        (In-sort _ (x ∷ xs) (In-get_elem? (sort (x ∷ xs)) _ (omega (arith, length-sort (x ∷ xs)))))

module _ {D F : Type 0} (f : Float F) (share : F) where
  -- Whatever the float arithmetic gives, the 95th percentile is one of the recorded latencies, and
  -- with none recorded it is the last latency.
  pub p95-In_history :
      (p : IntegrityProof D)
      → In (latency_stats f share p).p95_ms p.latency_history
        ⊎ ((p.latency_history ≡ []) × ((latency_stats f share p).p95_ms ≡ p.verify_latency_ms))
  unfolding latency_stats
  p95-In_history p = p95_of f share p.verify_latency_ms p.latency_history

module _ {D : Type 0} where
  pub record_latencies : List ℕ → IntegrityProof D → IntegrityProof D
  record_latencies [] p = p
  record_latencies (ms ∷ mss) p = record_latencies mss (record_latency ms p)

  record_latencies-window :
      (mss : List ℕ) (p : IntegrityProof D)
      → (record_latencies mss p).latency_history ≡ push_window 1000 mss p.latency_history
  unfolding record_latencies record_latency
  record_latencies-window [] p = refl
  record_latencies-window (ms ∷ mss) p = record_latencies-window mss (record_latency ms p)

  -- From a proof with at most 1000 latencies, a run of measurements leaves the last 1000 of the
  -- old and the new ones, oldest first.
  pub latency_history-run :
      (mss : List ℕ) (p : IntegrityProof D)
      → length p.latency_history ≤ 1000
      → ((record_latencies mss p).latency_history
          ≡ drop (length (p.latency_history ++ mss) - 1000) (p.latency_history ++ mss))
        × (length (record_latencies mss p).latency_history ≤ 1000)
  latency_history-run mss p h =
      let e = record_latencies-window mss p ∙ push_window-eq 1000 mss p.latency_history h in
      (
        e ∙ trim_front-eq-drop 1000 (p.latency_history ++ mss),
        rw e (length-trim_front 1000 (p.latency_history ++ mss)),
      )
