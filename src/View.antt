-- ===== src/View.antt =====
-- What a handler does to the page besides the issues: toasts, and the callbacks of the view that
-- registered it (static/js/list-utils.js).
use wuflow.Base.{String, Bool, List, [], ◌∷◌, ◌++◌, if◌then◌else◌}

pub data Effect : Type 0 where
  toast : String → Effect  -- an error toast
  rerender : Effect  -- `rerenderCallback`
  refresh : Effect  -- `refreshCallback`, which loads the server's state
  dropped : Effect  -- `onDrop`

-- Which callbacks are set.
pub record Callbacks : Type 0 where
  pub has_rerender : Bool
  pub has_refresh : Bool

abbrev pub rerender_if : Callbacks → List Effect
rerender_if cb = if cb.has_rerender then rerender ∷ [] else []

abbrev pub refresh_if : Callbacks → List Effect
refresh_if cb = if cb.has_refresh then refresh ∷ [] else []

-- The function that `createRerenderOrRefresh` returns.
unfoldable pub rerender_or_refresh : Callbacks → List Effect
rerender_or_refresh cb = if cb.has_rerender then rerender ∷ [] else refresh_if cb

-- `showSaveFailure`
unfoldable pub show_save_failure : String → Callbacks → List Effect
show_save_failure m cb = toast m ∷ (rerender_if cb ++ refresh_if cb)
