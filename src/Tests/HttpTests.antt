-- ===== src/Tests/HttpTests.antt =====
-- internal/httpapi at concrete inputs.
use mipttest_task.Base.{true, none, some, [], ◌∷◌, codes}
use mipttest_task.Domain.Errors.{ok}
use mipttest_task.Domain.Poll.{active}
use mipttest_task.Store.Wire.{answered}
use mipttest_task.Http.Answers.{Metrics}
use mipttest_task.Http.Votes.{VoteRequest, post_vote}
use mipttest_task.Http.Votes.Accounts.{IsAccounted, post_vote-IsAccounted}
use mipttest_task.Tests.ServiceTests.{replica, quiet, world}

abbrev voting : VoteRequest
voting = record {
  id = codes "00000000-0000-4000-8000-000000000000";
  is_json = true;
  body = some (codes "00000000-0000-4000-8000-000000000001" ∷ []);
  network_hash = codes "net";
  device = ok (codes "device", none);
}

abbrev pub metrics : Metrics
metrics = record { rejections = (codes "validation", 2) ∷ []; recorded = 5; duplicates = 1 }

post_vote-IsAccounted_example :
    let out = post_vote replica (19, answered) 3 quiet 20 voting (world active) metrics in
    IsAccounted metrics out.0 out.2
post_vote-IsAccounted_example =
    post_vote-IsAccounted replica (19, answered) 3 quiet 20 voting (world active) metrics
