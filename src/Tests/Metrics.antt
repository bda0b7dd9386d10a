-- ===== src/Tests/Metrics.antt =====
use Prim.Native.String.{String}
use fnal_artdaq.Base.{
  ◌<◌, ◌⊎◌, leb, if◌then◌else◌, ◌/◌, ◌≤◌, arith, ℕ, ◌+◌, ◌≡◌, refl, List, [], ◌∷◌, map, Bool, true,
  false, none, some, ok, fault, null_pointer, ltb, ◌>>=◌,
}
use fnal_artdaq.MetricManager.{
  MetricPlugins, new, call_each, do_start, do_stop, send_metric, shutdown, plugin_of, make_plugins,
  initialize,
}
use fnal_artdaq.MetricManager.Lives.{
  Call, start, stop, send, acts, lived, left_running, managed, made, acts-initialize,
}
use fnal_artdaq.MetricManager.Again.{initialize-do_start}
use fnal_artdaq.Generator.{pos}
use fnal_artdaq.StatisticsHelper.{
  Monitoring, Collection, StatisticsHelper, advance, ready_to_report,
}
use fnal_artdaq.StatisticsHelper.Reports.{reports, highest_reached, reports_lem}
use fnal_artdaq.Tests.Builders.{sample_sets}

-- A plugin is the sum of what it has been told: 100 for a start or a stop, and small metrics.
abbrev sums : MetricPlugins Bool ℕ ℕ
sums = record {
  make = λ kind pset. some 0;
  start_metrics = λ n. n + 100;
  stop_metrics = λ n. n + 100;
  send_metric = λ v n. n + v;
  wants = λ v n. ltb v 10;
}

abbrev keys : Bool → List String
keys pset = "file" ∷ "graphite" ∷ []

abbrev calls : List (Call ℕ)
calls = send 3 ∷ start ∷ send 5 ∷ send 50 ∷ stop ∷ send 2 ∷ []

each_sum :
    (initialize sums sample_sets keys true new >>= acts sums calls)
    ≡ ok (record { metric_plugins = some 205 ∷ some 205 ∷ []; initialized = true; running = false })
unfolding initialize make_plugins plugin_of do_start do_stop send_metric call_each
each_sum = refl

acts-initialize_example :
    ((initialize sums sample_sets keys true new >>= acts sums calls)
      ≡ ok (
          managed sums
            (lived sums calls false)
            (made sums sample_sets keys true)
            (left_running sums calls false)))
    × (((initialize sums sample_sets keys true new >>= acts sums calls) >>= shutdown sums)
        ≡ ok (record {
          metric_plugins = map (λ p. none) (made sums sample_sets keys true);
          initialized = false;
          running = false;
        }))
acts-initialize_example = acts-initialize sums sample_sets keys true calls

initialize-do_start_example :
    (initialize sums sample_sets keys true
        (record { metric_plugins = some 205 ∷ []; initialized = true; running = false })
      >>= do_start sums)
    ≡ fault null_pointer
initialize-do_start_example = initialize-do_start sums sample_sets keys true (some 205) [] false

-- Times are numbers, and a quantity is the time that it has run.
abbrev clock : Monitoring ℕ ℕ
clock = record {
  zero_double = 0;
  one_double = 1;
  less = ltb;
  at_least = λ x y. leb y x;
  min = λ x y. if ltb x y then x else y;
  default_bin = λ w. 1;
  quotient = λ x y. x / y;
  new_quantity = λ bin window. 0;
  add_sample = λ v q. q;
  reset = λ q. 0;
  full_duration = λ q. q;
  last_calculation_time = λ q. q;
}

abbrev helper : StatisticsHelper ℕ
helper = record {
  monitored_quantity_names = "events" ∷ [];
  primary_stat = some "events";
  reporting_interval_fragments = pos 2;
  reporting_interval_seconds = 20;
  previous_reporting_index = 0;
  previous_stats_calc_time = 0;
}

-- Calls for the counts 1 to 4, after 15, 30, 45 and 50 seconds.
abbrev asked : List (ℕ × Collection ℕ)
asked =
    (1, λ name. some 15) ∷ (2, λ name. some 30) ∷ (3, λ name. some 45) ∷ (4, λ name. some 50) ∷ []

two_reports : reports clock asked helper ≡ ok (record helper { previous_reporting_index = 2 }, 2)
unfolding ready_to_report advance
two_reports = refl

reports_lem_example :
    (t : StatisticsHelper ℕ) × (n : ℕ) × (reports clock asked helper ≡ ok (t, n))
    × (t.previous_reporting_index ≡ highest_reached clock asked 0 helper)
    × (0 + n ≤ t.previous_reporting_index)
    × ((n ≡ 0) ⊎ (0 < t.previous_reporting_index))
    × ((1 ≤ n) ⊎ (0 ≡ t.previous_reporting_index))
reports_lem_example = reports_lem clock asked helper (λ e. omega (arith, e))
