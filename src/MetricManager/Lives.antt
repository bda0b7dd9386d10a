-- ===== src/MetricManager/Lives.antt =====
-- What a plugin sees of artdaq/DAQrate/MetricManager.cc between one `initialize` and one `shutdown`.
use Prim.Native.String.{String}
use fnal_artdaq.Base.{
  ◌≡◌, refl, List, [], ◌∷◌, map, Bool, true, false, Option, none, some, Outcome, ok, ◌>>=◌,
  if◌then◌else◌,
}
use fnal_artdaq.Parameters.{ParameterSets}
use fnal_artdaq.MetricManager.{
  MetricPlugins, MetricManager, new, call_each, do_start, do_stop, do_pause, do_resume, send_metric,
  shutdown, make_plugins, initialize,
}

-- The calls of a manager that is initialized.
pub data Call (V : Type 0) : Type 0 where
  start stop pause resume : Call V
  send : V → Call V

call_each-map :
    {M : Type 0} (f : M → Option M) (g : M → M) (l : List M)
    → call_each f (map (λ p. some (g p)) l) ≡ ok (map (λ p. f (g p)) l)
unfolding call_each
call_each-map f g [] = refl
call_each-map f g (p ∷ l) = rw (call_each-map f g l) refl

module _ {P M V : Type 0} (plugins : MetricPlugins P M V) where
  abbrev pub act : Call V → MetricManager M → Outcome (MetricManager M)
  act start m = do_start plugins m
  act stop m = do_stop plugins m
  act pause m = do_pause plugins m
  act resume m = do_resume plugins m
  act (send value) m = send_metric plugins value m

  abbrev pub acts : List (Call V) → MetricManager M → Outcome (MetricManager M)
  acts [] m = ok m
  acts (c ∷ calls) m = act c m >>= λ t. acts calls t

  -- One plugin alone, from a state that is running or not: it is started and stopped in turns, and
  -- gets the metrics that it wants in between.
  abbrev pub lived : List (Call V) → Bool → M → M
  lived [] running p = p
  lived (start ∷ calls) running p =
      lived calls true (if running then p else plugins.start_metrics p)
  lived (resume ∷ calls) running p =
      lived calls true (if running then p else plugins.start_metrics p)
  lived (stop ∷ calls) running p = lived calls false (if running then plugins.stop_metrics p else p)
  lived (pause ∷ calls) running p =
      lived calls false (if running then plugins.stop_metrics p else p)
  lived (send value ∷ calls) running p =
      lived calls running
        (if running then (if plugins.wants value p then plugins.send_metric value p else p) else p)

  -- Whether the calls leave it running.
  abbrev pub left_running : List (Call V) → Bool → Bool
  left_running [] running = running
  left_running (start ∷ calls) running = left_running calls true
  left_running (resume ∷ calls) running = left_running calls true
  left_running (stop ∷ calls) running = left_running calls false
  left_running (pause ∷ calls) running = left_running calls false
  left_running (send value ∷ calls) running = left_running calls running

  -- A manager of plugins that have come to what `g` makes of them.
  abbrev pub managed : (M → M) → List M → Bool → MetricManager M
  managed g l running = record {
    metric_plugins = map (λ p. some (g p)) l;
    initialized = true;
    running = running;
  }

  acts-lived :
      (calls : List (Call V)) (g : M → M) (l : List M) (running : Bool)
      → acts calls (managed g l running)
        ≡ ok (managed (λ p. lived calls running (g p)) l (left_running calls running))
  unfolding do_start do_stop do_pause do_resume send_metric
  acts-lived [] g l running = refl
  acts-lived (start ∷ calls) g l true = acts-lived calls g l true
  acts-lived (start ∷ calls) g l false =
      rw (call_each-map (λ p. some (plugins.start_metrics p)) g l)
        (acts-lived calls (λ p. plugins.start_metrics (g p)) l true)
  acts-lived (resume ∷ calls) g l true = acts-lived calls g l true
  acts-lived (resume ∷ calls) g l false =
      rw (call_each-map (λ p. some (plugins.start_metrics p)) g l)
        (acts-lived calls (λ p. plugins.start_metrics (g p)) l true)
  acts-lived (stop ∷ calls) g l false = acts-lived calls g l false
  acts-lived (stop ∷ calls) g l true =
      rw (call_each-map (λ p. some (plugins.stop_metrics p)) g l)
        (acts-lived calls (λ p. plugins.stop_metrics (g p)) l false)
  acts-lived (pause ∷ calls) g l false = acts-lived calls g l false
  acts-lived (pause ∷ calls) g l true =
      rw (call_each-map (λ p. some (plugins.stop_metrics p)) g l)
        (acts-lived calls (λ p. plugins.stop_metrics (g p)) l false)
  acts-lived (send value ∷ calls) g l false = acts-lived calls g l false
  acts-lived (send value ∷ calls) g l true =
      rw
        (call_each-map
          (λ p. some (if plugins.wants value p then plugins.send_metric value p else p)) g l)
        (acts-lived calls
          (λ p. if plugins.wants value (g p) then plugins.send_metric value (g p) else g p) l true)

  shutdown-managed :
      (g : M → M) (l : List M) (running : Bool)
      → shutdown plugins (managed g l running)
        ≡ ok (record { metric_plugins = map (λ p. none) l; initialized = false; running = false })
  unfolding shutdown do_stop
  shutdown-managed g l true =
      rw
        (
          call_each-map (λ p. some (plugins.stop_metrics p)) g l,
          call_each-map (λ p. none) (λ p. plugins.stop_metrics (g p)) l,
        )
        refl
  shutdown-managed g l false = rw (call_each-map (λ p. none) g l) refl

module _ {P M V : Type 0} (plugins : MetricPlugins P M V) (sets : ParameterSets P)
    (keys : P → List String) (pset : P) where
  abbrev pub made : List M
  made = make_plugins plugins sets keys pset (keys pset)

  -- A new manager that is initialized once works, whatever calls of start, stop, pause, resume and
  -- send follow, without a fault, on each plugin that could be made as on one alone: the plugin is
  -- started only while it is not running and stopped only while it is, and gets the metrics that it
  -- wants while it is running. A `shutdown` after that releases all of them.
  pub acts-initialize :
      (calls : List (Call V))
      → ((initialize plugins sets keys pset new >>= acts plugins calls)
          ≡ ok
              (managed plugins (lived plugins calls false) made (left_running plugins calls false)))
        × (((initialize plugins sets keys pset new >>= acts plugins calls) >>= shutdown plugins)
            ≡ ok (record {
              metric_plugins = map (λ p. none) made;
              initialized = false;
              running = false;
            }))
  unfolding initialize
  acts-initialize calls =
      let run = acts-lived plugins calls (λ p. p) made false in
      (run, rw run (shutdown-managed plugins (lived plugins calls false) made _))
