-- ===== src/Ui/Progress.antt =====
-- internal/ui/components/pull_progress.go: the layers of a pull. The map of layers is an association
-- list, and the drawn bar is left out.
use lstk.Prelude.{ℕ, ◌+◌, Bool, true, false, List, [], ◌∷◌, ◌||◌, ltb, ◌==◌, if◌then◌else◌}
use lstk.Text.Basic.{Text, codes, text_eq}

pub record LayerState : Type 0 where
  pub status : Text
  pub current : ℕ
  pub total : ℕ
  pub max_total : ℕ
  pub complete : Bool

-- `output.ProgressEvent`
pub record ProgressEvent : Type 0 where
  pub layer_id : Text
  pub status : Text
  pub current : ℕ
  pub total : ℕ

pub record PullProgress : Type 0 where
  pub layers : List (Text × LayerState)
  pub visible : Bool

abbrev pub new_pull_progress : PullProgress
new_pull_progress = record { layers = []; visible = false }

abbrev pub show_progress : PullProgress
show_progress = record { layers = []; visible = true }

abbrev pub hide_progress : PullProgress
hide_progress = record { layers = []; visible = false }

abbrev pub new_layer : LayerState
new_layer = record { status = []; current = 0; total = 0; max_total = 0; complete = false }

abbrev pub is_complete : Text → Bool
is_complete status = status == codes "Pull complete" || status == codes "Already exists"

abbrev pub updated_layer : ProgressEvent → LayerState → LayerState
updated_layer e l = record {
  status = e.status;
  current = e.current;
  total = e.total;
  max_total = if ltb l.max_total e.total then e.total else l.max_total;
  complete = is_complete e.status || l.complete;
}

unfoldable pub update_layer : ProgressEvent → List (Text × LayerState) → List (Text × LayerState)
update_layer e [] = (e.layer_id, updated_layer e new_layer) ∷ []
update_layer e ((id, l) ∷ layers) =
    let rest = update_layer e layers in
    if id == e.layer_id then (id, updated_layer e l) ∷ layers else (id, l) ∷ rest

-- `SetProgress`
unfoldable pub set_progress : ProgressEvent → PullProgress → PullProgress
unfolding update_layer
set_progress e p = if e.layer_id == [] then p else record p { layers = update_layer e p.layers }

-- `aggregatePercent`: the two sums that it divides, the bytes that have come and all of them.
unfoldable pub aggregate : List (Text × LayerState) → ℕ × ℕ
aggregate [] = (0, 0)
aggregate ((id, l) ∷ layers) =
    let (current, total) = aggregate layers in
    if ltb 0 l.max_total
    then ((if l.complete then l.max_total else l.current) + current, l.max_total + total)
    else (current, total)

-- `layerCounts`: all layers, and those that are complete.
unfoldable pub layer_counts : List (Text × LayerState) → ℕ × ℕ
layer_counts [] = (0, 0)
layer_counts ((id, l) ∷ layers) =
    let (total, done) = layer_counts layers in (1 + total, if l.complete then 1 + done else done)

-- `dominantPhase`, over the numbers of layers that are downloaded and extracted.
unfoldable pub phase_counts : List (Text × LayerState) → ℕ × ℕ
phase_counts [] = (0, 0)
phase_counts ((id, l) ∷ layers) =
    let (downloading, extracting) = phase_counts layers in
    if l.status == codes "Downloading"
    then (1 + downloading, extracting)
    else if l.status == codes "Extracting"
    then (downloading, 1 + extracting)
    else (downloading, extracting)

abbrev pub phase_of : ℕ × ℕ → Text
phase_of (downloading, extracting) =
    if ltb downloading extracting
    then codes "Extracting"
    else if ltb 0 downloading
    then codes "Downloading"
    else codes "Pulling"

unfoldable pub dominant_phase : PullProgress → Text
unfolding phase_counts
dominant_phase p = phase_of (phase_counts p.layers)
