-- ===== src/Platform.antt =====
-- What the program takes from outside the repository and the model keeps abstract: the IEEE
-- arithmetic of `float64`, and the library github.com/HdrHistogram/hdrhistogram-go with the
-- encoding/gob form of its snapshots (internal/metrics/metrics.go uses both).
use loadify.Prelude.{ℕ, ◌+◌, ◌≤◌, ◌≡◌, Bool, Option, some, List, ◌∷◌, ℤ}

pub record Platform : Type 1 where
  pub Float : Type 0
  -- float64(n) for a whole number, and the truncation int64(x).
  pub of_int : ℕ → Float
  pub to_int : Float → ℕ
  -- float64(n) for a signed number, and math.Min.
  pub of_signed : ℤ → Float
  pub min_float : Float → Float → Float
  pub half : Float
  pub add_float : Float → Float → Float
  pub sub_float : Float → Float → Float
  pub mul_float : Float → Float → Float
  pub div_float : Float → Float → Float
  pub lt_float : Float → Float → Bool
  pub le_float : Float → Float → Bool
  pub eq_float : Float → Float → Bool
  pub Hist : Type 0
  -- hdr.New(lowest, highest, significant figures).
  pub new_hist : ℕ → ℕ → ℕ → Hist
  pub record_value : Hist → ℕ → Hist
  pub merge : Hist → Hist → Hist
  pub hist_count : Hist → ℕ
  pub value_at_quantile : Hist → ℕ → ℕ
  pub max_value : Hist → ℕ
  -- The gob bytes of a snapshot, and the histogram of such bytes; `none` is a gob error.
  pub gob_encode : Hist → Option (List ℕ)
  pub gob_decode : List ℕ → Option Hist

-- The histograms that are made with these bounds: empty ones, those with a further value within the
-- bounds, and merges of such.
pub data HasBounds (p : Platform) (low high figures : ℕ) : p.Hist → Type 0 where
  fresh : HasBounds p low high figures (p.new_hist low high figures)
  recorded :
      {h : p.Hist} (v : ℕ)
      → low ≤ v
      → v ≤ high
      → HasBounds p low high figures h
      → HasBounds p low high figures (p.record_value h v)
  merged :
      {g h : p.Hist}
      → HasBounds p low high figures g
      → HasBounds p low high figures h
      → HasBounds p low high figures (p.merge g h)

-- What hdrhistogram-go documents of counting in histograms with the same bounds: an empty one
-- counts nothing, a value within the bounds counts once, and a merge adds the counts.
pub record CountsValues (p : Platform) (low high figures : ℕ) : Type 0 where
  pub hist_count-new : p.hist_count (p.new_hist low high figures) ≡ 0
  pub hist_count-record :
      (h : p.Hist) (v : ℕ)
      → HasBounds p low high figures h
      → low ≤ v
      → v ≤ high
      → p.hist_count (p.record_value h v) ≡ p.hist_count h + 1
  pub hist_count-merge :
      (g h : p.Hist)
      → HasBounds p low high figures g
      → HasBounds p low high figures h
      → p.hist_count (p.merge g h) ≡ p.hist_count g + p.hist_count h

-- What encoding/gob documents of a snapshot: its bytes, which are not empty, are read back as the
-- histogram that was written.
pub record KeepsSnapshots (p : Platform) : Type 0 where
  pub gob_round_trip :
      (h : p.Hist)
      → (b : ℕ) × (bytes : List ℕ) × (p.gob_encode h ≡ some (b ∷ bytes))
        × (p.gob_decode (b ∷ bytes) ≡ some h)

module _ ⦃p : Platform⦄ where
  abbrev pub Float : Type 0
  Float = p.Float

  abbrev pub Hist : Type 0
  Hist = p.Hist

  abbrev pub float : ℕ → Float
  float = p.of_int
