-- ===== src/StatisticsHelper.antt =====
-- artdaq/Application/MPI2/StatisticsHelper.hh and StatisticsHelper.cc: the monitored quantities of an
-- application, and when to report them.
pub mod Reports
use Prim.Native.String.{String}
use text.Mathlib.Text.{◌==◌ as str_eq}
use fnal_artdaq.Base.{
  ℕ, ◌-◌, ◌%◌, List, [], ◌∷◌, ◌++◌, Bool, true, false, Option, none, some, Outcome, ok, fault,
  division_by_zero, configuration, ◌==◌, ltb, if◌then◌else◌, ◌>>=◌,
}
use fnal_artdaq.FragCounter.{size_t_mod}
use fnal_artdaq.Generator.{ℤ, pos, negsuc}
use fnal_artdaq.Parameters.{ParameterSets, Lookup, missing, mismatched, found}

-- `double` and the class `MonitoredQuantity` of artdaq-core: `D` and `Q` stand for the two.
pub record Monitoring (D Q : Type 0) : Type 0 where
  -- 0.0, 1.0, `<`, `>=` and `std::min`
  pub zero_double : D
  pub one_double : D
  pub less : D → D → Bool
  pub at_least : D → D → Bool
  pub min : D → D → D
  -- `1.0 + ((int) ((w - 1) / 100.0))` and `(size_t) (x / y)`
  pub default_bin : D → D
  pub quotient : D → D → ℕ
  -- the constructor, `addSample`, `reset`, `fullDuration` and `lastCalculationTime`
  pub new_quantity : D → D → Q
  pub add_sample : D → Q → Q
  pub reset : Q → Q
  pub full_duration : Q → D
  pub last_calculation_time : Q → D

-- `StatisticsCollection`, the quantities by their names.
abbrev pub Collection : Type 0 → Type 0
Collection Q = String → Option Q

-- `primary_stat` is the name of the quantity that `primary_stat_ptr_` points to.
pub record StatisticsHelper (D : Type 0) : Type 0 where
  pub monitored_quantity_names : List String
  pub primary_stat : Option String
  pub reporting_interval_fragments : ℤ
  pub reporting_interval_seconds : D
  pub previous_reporting_index : ℕ
  pub previous_stats_calc_time : D

-- `addMonitoredQuantity`, or the effect of a call of the quantity of a name.
abbrev pub with_quantity : {Q : Type 0} → String → Q → Collection Q → Collection Q
with_quantity name q quantities = λ other. if str_eq name other then some q else quantities other

-- An `int` in the place of a `size_t`.
abbrev pub as_size_t : ℤ → ℕ
as_size_t (pos n) = n
as_size_t (negsuc n) = size_t_mod - (n % size_t_mod) - 1

module _ {D Q : Type 0} (mon : Monitoring D Q) where
  -- The constructor; the members that it does not initialize have any values.
  unfoldable pub new : StatisticsHelper D → StatisticsHelper D
  new uninitialized = record uninitialized {
    monitored_quantity_names = [];
    primary_stat = none;
    previous_reporting_index = 0;
    previous_stats_calc_time = mon.zero_double;
  }

  unfoldable pub add_monitored_quantity_name : String → StatisticsHelper D → StatisticsHelper D
  add_monitored_quantity_name name s = record s {
    monitored_quantity_names = s.monitored_quantity_names ++ name ∷ [];
  }

  -- `addSample`: nothing where there is no quantity of the name.
  unfoldable pub add_sample_to : String → D → Collection Q → Collection Q
  add_sample_to name value quantities = elim (quantities name) [
    | none ↦ quantities
    | some q ↦ with_quantity name (mon.add_sample value q) quantities
  ]

  -- The loop of `resetStatistics`.
  unfoldable pub reset_all : List String → Collection Q → Collection Q
  reset_all [] quantities = quantities
  reset_all (name ∷ names) quantities = elim (quantities name) [
    | none ↦ reset_all names quantities
    | some q ↦ reset_all names (with_quantity name (mon.reset q) quantities)
  ]

  unfoldable pub reset_statistics :
      StatisticsHelper D → Collection Q → StatisticsHelper D × Collection Q
  unfolding reset_all
  reset_statistics s quantities = (
    record s { previous_reporting_index = 0; previous_stats_calc_time = mon.zero_double },
    reset_all s.monitored_quantity_names quantities,
  )

  -- The quantity that `primary_stat_ptr_` points to.
  abbrev pub primary : StatisticsHelper D → Collection Q → Option Q
  primary s quantities = elim s.primary_stat [ none ↦ none | some name ↦ quantities name ]

  -- `if (reportIndex > previous_reporting_index_) …`
  unfoldable pub advance : ℕ → StatisticsHelper D → StatisticsHelper D × Bool
  advance index s =
      if ltb s.previous_reporting_index index
      then (record s { previous_reporting_index = index }, true)
      else (s, false)

  unfoldable pub ready_to_report :
      ℕ → Collection Q → StatisticsHelper D → Outcome (StatisticsHelper D × Bool)
  unfolding advance
  ready_to_report current_count quantities s = elim (primary s quantities) [
    | none ↦ ok (s, false)
    | some q ↦
        if as_size_t s.reporting_interval_fragments == 0
        then fault division_by_zero
        else ok (
            if current_count % as_size_t s.reporting_interval_fragments == 0
            then advance (mon.quotient (mon.full_duration q) s.reporting_interval_seconds) s
            else (s, false))
  ]

  -- `now` is `getCurrentTime()`.
  unfoldable pub stats_rolling_window_has_moved :
      D → Collection Q → StatisticsHelper D → StatisticsHelper D × Bool
  stats_rolling_window_has_moved now quantities s = elim (primary s quantities) [
    | none ↦ (s, false)
    | some q ↦
        let last = mon.last_calculation_time q in
        if mon.less s.previous_stats_calc_time last
        then (record s { previous_stats_calc_time = mon.min last now }, true)
        else (s, false)
  ]

  -- The loop of `createCollectors`.
  unfoldable pub create_all : D → D → List String → Collection Q → Collection Q
  create_all bin window [] quantities = quantities
  create_all bin window (name ∷ names) quantities =
      create_all bin window names (with_quantity name (mon.new_quantity bin window) quantities)

-- `pset.get<T>(key, otherwise)`
abbrev pub get_or : {A : Type 0} → A → Lookup A → Outcome A
get_or otherwise missing = ok otherwise
get_or otherwise mismatched = fault configuration
get_or otherwise (found a) = ok a

module _ {P D Q : Type 0} (mon : Monitoring D Q) (sets : ParameterSets P)
    (get_double : String → P → Lookup D) where
  unfoldable pub create_collectors :
      P
      → ℤ
      → D
      → D
      → String
      → StatisticsHelper D
      → Collection Q
      → Outcome ((StatisticsHelper D × Collection Q) × Bool)
  unfolding create_all
  create_collectors pset fragments seconds window primary_name s quantities = do
    interval ← get_or fragments (sets.get_int "reporting_interval_fragments" pset)
    period ← get_or seconds (get_double "reporting_interval_seconds" pset)
    width ← get_or window (get_double "monitor_window" pset)
    size ← get_or (mon.default_bin width) (get_double "monitor_binsize" pset)
    let bin = if mon.less size mon.one_double then mon.one_double else size
    let created =
        if mon.at_least width mon.one_double
        then create_all mon bin width s.monitored_quantity_names quantities
        else quantities
    let there = elim (created primary_name) as (λ o. Bool) [ none ↦ false | some q ↦ true ]
    ok (
      (
        record s {
          reporting_interval_fragments = interval;
          reporting_interval_seconds = period;
          primary_stat = if there then some primary_name else none;
        },
        created,
      ),
      there,
    )
