-- ===== src/Tests/ClosingTests.antt =====
-- A close over HTTP and the votes behind it, at concrete inputs.
use mipttest_task.Base.{
  ◌≡◌, ap, sym, refl, true, none, some, List, [], ◌∷◌, arith, Str, codes, eq_str, has_prefix,
}
use mipttest_task.Base.Dict.{lookup, insert}
use mipttest_task.Base.Decimal.{itoa, parse_int}
use mipttest_task.Base.Int.{add_int64}
use mipttest_task.Domain.Errors.{ok}
use mipttest_task.Domain.Poll.{active, Poll}
use mipttest_task.Domain.Uuid.{is_uuid, strip_dashes, hex_decode}
use mipttest_task.Redis.Keyspace.{dedupe, Keyspace, memory-laws}
use mipttest_task.Store.Keys.{gate_key, counts_key}
use mipttest_task.Store.Ttl.{ttl, time_sub}
use mipttest_task.Store.Wire.{answered, unacknowledged}
use mipttest_task.Store.Gates.{close_gates, set_gates, write_gates}
use mipttest_task.Store.Counters.{totals, add_counters}
use mipttest_task.Postgres.Tables.{PollRow, find_poll, find_runtime, update_poll}
use mipttest_task.Postgres.Calls.{no_faults}
use mipttest_task.Postgres.Reads.{get, get_by_id, join, order_by, insert_by, scan_poll, poll_of}
use mipttest_task.Postgres.Results.{
  load_result, save_snapshot, written, upsert_runtime, upsert_option, save_options, option_counts,
}
use mipttest_task.Service.World.{Cache}
use mipttest_task.Service.Votes.Guarded.{insert-AreActive, AreActive}
use mipttest_task.Service.Results.{close}
use mipttest_task.Http.Votes.Shut.{Arrival, answers, AreRefused}
use mipttest_task.Http.Admin.{Site, post_close, provided, admin_answer, admin}
use mipttest_task.Http.Closing.{close-AreRefused}
use mipttest_task.Tests.PostgresTests.{row}
use mipttest_task.Tests.ServiceTests.{replica, quiet, no_polls-AreActive}
use mipttest_task.Tests.AdminTests.{setup}
use mipttest_task.Tests.HttpTests.{metrics}

abbrev id : Str
id = codes "00000000-0000-4000-8000-000000000000"

abbrev option_id : Str
option_id = codes "00000000-0000-4000-8000-000000000001"

abbrev own_row : PollRow
own_row = record (row active) { id = id }

abbrev stored_poll : Poll
stored_poll = poll_of own_row (record { id = option_id; text = codes "o"; position = 0 } ∷ [])

abbrev site : Site Keyspace
site = record {
  world = record {
    tables = record {
      polls = own_row ∷ [];
      poll_options = record { id = option_id; poll_id = id; text = codes "o"; position = 0 } ∷ [];
      poll_runtime_results = [];
      poll_option_results = [];
    };
    db = λ k. none;
    cache = [];
  };
  qr_cache = [];
}

stored_test : get_by_id no_faults 0 id site.world.tables ≡ ok stored_poll
unfolding get join order_by insert_by scan_poll eq_str
stored_test = refl

closed_test :
    (admin replica setup (λ _. none) quiet (codes "Bearer secret") (post_close id) site).0.status
    ≡ 200
unfolding admin admin_answer provided has_prefix is_uuid strip_dashes hex_decode close get join
    order_by insert_by scan_poll eq_str close_gates write_gates set_gates gate_key counts_key totals
    save_snapshot written load_result find_poll find_runtime update_poll upsert_runtime
    upsert_option save_options option_counts ttl add_int64 time_sub lookup insert dedupe parse_int
    itoa add_counters
closed_test = refl

-- A cache that still holds the poll as it was before the close.
abbrev stale : Cache
stale = insert id (some (record { poll = stored_poll; expires = 100 })) []

stale-AreActive : AreActive stale
stale-AreActive =
    insert-AreActive [] id (some (record { poll = stored_poll; expires = 100 })) no_polls-AreActive
      (λ e h.
        let own : e.poll ≡ stored_poll =
          ap (λ o. elim o [ none ↦ stored_poll | some x ↦ x.poll ]) (sym h) in
        (ap (λ (x : Poll). x.status) own, ap (λ (x : Poll). x.id) own))

abbrev arrivals : List Arrival
arrivals =
    record {
      limited = (30, unacknowledged);
      limit = 3;
      events = quiet;
      now = 30;
      request = record {
        id = id;
        is_json = true;
        body = some (option_id ∷ []);
        network_hash = codes "net";
        device = ok (codes "device", none);
      };
      cache = [];
      metrics = metrics;
    }
    ∷ record {
      limited = (31, answered);
      limit = 3;
      events = quiet;
      now = 31;
      request = record {
        id = id;
        is_json = true;
        body = some (option_id ∷ []);
        network_hash = codes "net";
        device = ok (codes "device", none);
      };
      cache = stale;
      metrics = metrics;
    }
    ∷ []

close-AreRefused_example : AreRefused id arrivals (
    answers replica arrivals
      (admin replica setup (λ _. none) quiet (codes "Bearer secret") (post_close id) site).1.world)
close-AreRefused_example =
    close-AreRefused replica setup (λ _. none) quiet id site memory-laws (omega arith) stored_poll
      (codes "Bearer secret") stored_test refl closed_test arrivals
      (no_polls-AreActive, (stale-AreActive, tt))
