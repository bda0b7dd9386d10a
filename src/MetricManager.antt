-- ===== src/MetricManager.antt =====
-- artdaq/DAQrate/MetricManager.hh and MetricManager.cc: the plugins that metrics are sent to. The
-- plugins are loaded at run time, and each call of one is under `catch (...)`, which does not stop
-- a call through a null pointer.
pub mod Lives
pub mod Again
use Prim.Native.String.{String}
use fnal_artdaq.Base.{
  List, [], ◌∷◌, ◌++◌, map, Bool, true, false, ◌&&◌, Option, none, some, Outcome, ok, null_pointer,
  or_fault, ◌>>=◌, if◌then◌else◌,
}
use fnal_artdaq.Parameters.{ParameterSets, Lookup, missing, mismatched, found}

-- `MetricPlugin`, for the metrics `V`: what the calls make of a plugin, whether they throw or not;
-- `makeMetricPlugin`, which throws for `none`; and `getRunLevel() >= level`.
pub record MetricPlugins (P M V : Type 0) : Type 0 where
  pub make : String → P → Option M
  pub start_metrics : M → M
  pub stop_metrics : M → M
  pub send_metric : V → M → M
  pub wants : V → M → Bool

-- A pointer is `none` where it is null.
pub record MetricManager (M : Type 0) : Type 0 where
  pub metric_plugins : List (Option M)
  pub initialized : Bool
  pub running : Bool

-- The constructor.
abbrev pub new : {M : Type 0} → MetricManager M
new = record { metric_plugins = []; initialized = false; running = false }

-- A loop that calls each plugin through its pointer.
unfoldable pub call_each :
    {M : Type 0} → (M → Option M) → List (Option M) → Outcome (List (Option M))
call_each f [] = ok []
call_each f (p ∷ more) = do
  plugin ← or_fault p null_pointer
  rest ← call_each f more
  ok (f plugin ∷ rest)

module _ {P M V : Type 0} (plugins : MetricPlugins P M V) where
  unfoldable pub do_start : MetricManager M → Outcome (MetricManager M)
  unfolding call_each
  do_start m = if m.running then ok m else (do
    started ← call_each (λ p. some (plugins.start_metrics p)) m.metric_plugins
    ok (record m { metric_plugins = started; running = true }))

  unfoldable pub do_stop : MetricManager M → Outcome (MetricManager M)
  unfolding call_each
  do_stop m =
      if m.running
      then (do
        stopped ← call_each (λ p. some (plugins.stop_metrics p)) m.metric_plugins
        ok (record m { metric_plugins = stopped; running = false }))
      else ok m

  unfoldable pub do_pause : MetricManager M → Outcome (MetricManager M)
  unfolding do_stop
  do_pause m = do_stop m

  unfoldable pub do_resume : MetricManager M → Outcome (MetricManager M)
  unfolding do_start
  do_resume m = do_start m

  -- `sendMetric`.
  unfoldable pub send_metric : V → MetricManager M → Outcome (MetricManager M)
  unfolding call_each
  send_metric value m =
      if m.initialized && m.running
      then (do
        sent ←
            call_each (λ p. some (if plugins.wants value p then plugins.send_metric value p else p))
              m.metric_plugins
        ok (record m { metric_plugins = sent }))
      else ok m

  -- Each plugin is asked for its name, and its pointer is reset.
  unfoldable pub shutdown : MetricManager M → Outcome (MetricManager M)
  unfolding do_stop call_each
  shutdown m = do
    stopped ← do_stop m
    released ←
        if stopped.initialized
        then call_each (λ p. none) stopped.metric_plugins
        else ok stopped.metric_plugins
    ok (record stopped { metric_plugins = released; initialized = false })

module _ {P M V : Type 0} (plugins : MetricPlugins P M V) (sets : ParameterSets P)
    (keys : P → List String) where
  -- The plugin under a name; `none` where something throws. `keys` is `get_pset_keys`.
  unfoldable pub plugin_of : P → String → Option M
  plugin_of pset name = elim (sets.get_pset name pset) [
    | missing ↦ none
    | mismatched ↦ none
    | found part ↦ elim (sets.get_string "metricPluginType" part) [
      | missing ↦ plugins.make "" part
      | mismatched ↦ none
      | found kind ↦ plugins.make kind part
    ]
  ]

  -- The loop on the names: the plugins that it makes.
  unfoldable pub make_plugins : P → List String → List M
  unfolding plugin_of
  make_plugins pset [] = []
  make_plugins pset (name ∷ names) = elim (plugin_of pset name) [
    | none ↦ make_plugins pset names
    | some plugin ↦ plugin ∷ make_plugins pset names
  ]

  unfoldable pub initialize : P → MetricManager M → Outcome (MetricManager M)
  unfolding shutdown make_plugins
  initialize pset m = do
    t ← if m.initialized then shutdown plugins m else ok m
    ok (record t {
      metric_plugins = t.metric_plugins ++ map some (make_plugins pset (keys pset));
      initialized = true;
    })

  unfoldable pub reinitialize : P → MetricManager M → Outcome (MetricManager M)
  unfolding shutdown initialize
  reinitialize pset m = shutdown plugins m >>= λ t. initialize pset t
