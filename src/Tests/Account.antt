-- ===== src/Tests/Account.antt =====
-- Runs of the synthesizer over the cache on a server in memory, and the account of them.
use mathlib.Core.List.{Permᴰ}
use cdrrs.Base.{
  ◌≡◌, refl, ap, inl, inr, true, List, [], ◌∷◌, none, some, ok, codes, All, map, Bytes, arith,
}
use cdrrs.Model.Item.{SipCache, empty_sip_item}
use cdrrs.Service.Todo.{lookup}
use cdrrs.Service.Loop.{Synth, Event, input, tick, expired, run, push_redis}
use cdrrs.Service.Loop.Order.{push_redis-Permᴰ}
use cdrrs.Service.Loop.Safe.{Returns}
use cdrrs.Service.Files.Workers.{line, eof, Task}
use cdrrs.Service.Files.Workers.Lines.{is_ended, lines_of, all_lines}
use cdrrs.Service.Account.Arrivals.{Good}
use cdrrs.Service.Account.Runs.{items_of, Reached, run-Reached}
use cdrrs.Service.Account.Settled.{IsSettled, run-IsSettled}
use cdrrs.Service.Pipeline.{inputs, Merge, ends, takes}
use cdrrs.Service.Records.{Records, Arrival, collected, ticked}
use cdrrs.Service.Pipeline.Delivered.{collected_of, IsDelivered, inputs-IsDelivered}
use cdrrs.Model.Cdr.{VoipCdr}
use cdrrs.Tests.Records.{noon, encode}
use cdrrs.Service.Pipeline.Whole.{items_of_lines, items_of_tasks, AllReadable}
use cdrrs.Service.Race.{fired, done, handler, loop, take_turns}
use cdrrs.Service.Race.Overtaken.{IsOvertaken, take_turns-IsOvertaken}
use cdrrs.Tests.Data
use cdrrs.Tests.Data.{env, fresh, invite, bye}
use cdrrs.Tests.Lines.{do_line-line, do_line-bye_line}
use cdrrs.Tests.Memory.{Memory, nothing, cache, view}
use cdrrs.Tests.Redis.{promises, cached_half}

abbrev start : Synth Memory
start = record { todo = []; store = nothing; ex_synth = []; cdrs = []; ctime = none }

start-Good : Good cache view promises env 1 500 start
start-Good = record {
  pushable = record { keyed = tt; distinct = tt; fits = tt };
  valid = record { clean = λ j. refl; no_text = λ k. refl };
  room = omega arith;
}

-- The INVITE's half is pushed to the cache, where the BYE's meets it.
abbrev events : List Event
events =
    input invite 10 (codes "s1")
    ∷ input bye 20 (codes "s2")
    ∷ tick 900 (codes "s3")
    ∷ expired (codes "s1")
    ∷ []

events_fit : All view.Fits (items_of events)
unfolding items_of
events_fit = (inl refl, (inr refl, tt))

run-Reached_example :
    Returns
      (Reached cache view promises env 1 500 start (items_of events))
      (run cache env 1 500 start events)
run-Reached_example = run-Reached cache view promises env 1 500 start events start-Good events_fit

run-IsSettled_example :
    Returns
      (IsSettled cache view promises env 1 500 start (items_of events))
      (run cache env 1 500 start events)
run-IsSettled_example =
    run-IsSettled cache view promises env 1 500 start events start-Good events_fit

-- Two goroutines with a file each.
abbrev file : Bytes → Bytes → Task
file name bs = record {
  file = record { name = name; filepath = name; dtime = 7 };
  openable = true;
  reads = line bs ∷ eof ∷ [];
}

abbrev files : List (List Task)
files = (file (codes "r/a.txt") Data.line ∷ []) ∷ (file (codes "r/b.txt") Data.bye_line ∷ []) ∷ []

-- The goroutine of the second file took it from the queue after the other one's.
abbrev queue : List Task
queue = file (codes "r/a.txt") Data.line ∷ file (codes "r/b.txt") Data.bye_line ∷ []

queue-Merge : Merge files queue
queue-Merge = takes [] _ [] _ refl (takes ([] ∷ []) _ [] [] refl (ends (refl, (refl, tt))))

files_readable : All (AllReadable env.positions fresh empty_sip_item (codes "r")) files
unfolding is_ended
files_readable = (
  ((λ e. record { under_root = omega arith; ended = refl }), tt),
  (((λ e. record { under_root = omega arith; ended = refl }), tt), tt),
)

files_fit :
    All (All view.Fits) (map (items_of_tasks env.positions fresh empty_sip_item (codes "r")) files)
unfolding items_of_lines all_lines lines_of
files_fit = rw (do_line-line, do_line-bye_line) ((inl refl, tt), ((inr refl, tt), tt))

-- The goroutine of the second file is the first to send.
abbrev received : List Event
received = input bye 10 (codes "s1") ∷ tick 20 (codes "s2") ∷ input invite 30 (codes "s3") ∷ []

received-Merge :
    Merge
      (map (items_of_tasks env.positions fresh empty_sip_item (codes "r")) files)
      (items_of received)
unfolding items_of_lines all_lines lines_of items_of
received-Merge =
    rw (do_line-line, do_line-bye_line)
      (takes ((invite ∷ []) ∷ []) bye [] [] refl
        (takes [] invite [] ([] ∷ []) refl (ends (refl, (refl, tt)))))

-- Each record is handled as it comes, and a tick follows.
abbrev timing : List VoipCdr → List Arrival
timing [] = []
timing (cdr ∷ cdrs) =
    collected cdr noon (codes "2020-12-01 12:00:00") (codes "20201201") 40 ∷ ticked 50 ∷ timing cdrs

collected-timing : (cdrs : List VoipCdr) → collected_of (timing cdrs) ≡ cdrs
unfolding collected_of
collected-timing [] = refl
collected-timing (cdr ∷ cdrs) = ap (λ l. cdr ∷ l) (collected-timing cdrs)

abbrev records : Records
records = record { cdrs = []; counter = 0; cur_table_name = []; proc_db_time = none; calls = [] }

inputs-IsDelivered_example :
    (inputs env.positions fresh empty_sip_item (codes "r") files
      ≡ ok (map (items_of_tasks env.positions fresh empty_sip_item (codes "r")) files))
    × Returns
        (IsDelivered cache view promises env 1 500 fresh empty_sip_item
          (codes "r")
          true
          encode
          100
          60
          queue
          (items_of received)
          records
          timing
          start)
        (run cache env 1 500 start received)
inputs-IsDelivered_example =
    inputs-IsDelivered cache view promises env 1 500 fresh empty_sip_item (codes "r") true encode
      100 60 queue files records timing start received queue-Merge files_readable start-Good
      files_fit received-Merge collected-timing

-- The BYE's half waits while the INVITE's is cached, in a set whose timer fires.
abbrev both : Synth Memory
both = record {
  todo = (codes "c-1", bye) ∷ [];
  store = cached_half;
  ex_synth = codes "s1" ∷ [];
  cdrs = [];
  ctime = some 0;
}

take_turns-IsOvertaken_example :
    (t : Synth Memory) × (take_turns cache env 2 500
        (fired (codes "s1"))
        both
        (handler ∷ handler ∷ loop (tick 900 (codes "s2")) ∷ handler ∷ handler ∷ handler ∷ [])
      ≡ ok (done, t))
    × IsOvertaken cache view promises env 2 500 (codes "s1") both t
unfolding lookup
take_turns-IsOvertaken_example =
    take_turns-IsOvertaken cache view promises env 2 500 (codes "s1") (codes "c-1") (codes "s2") 900
      0 both (record { clean = λ j. refl; no_text = λ k. refl }) refl refl
      (record { keyed = (refl, tt); distinct = (refl, tt); fits = (inr refl, tt) }) refl refl

-- Halves of two calls, in both orders.
abbrev second : SipCache
second = record bye { call_id = codes "c-2" }

abbrev two : Synth Memory
two = record both { todo = (codes "c-1", invite) ∷ (codes "c-2", second) ∷ [] }

push_redis-Permᴰ_example :
    (t u : Synth Memory) × (push_redis cache env 3 500 (codes "s2") two ≡ ok t)
    × (push_redis cache env 3 500
          (codes "s3")
          (record two { todo = (codes "c-2", second) ∷ (codes "c-1", invite) ∷ [] })
        ≡ ok u)
    × (t.todo ≡ [])
    × (u.todo ≡ [])
    × ((k : Bytes) → view.item t.store k ≡ view.item u.store k)
    × Permᴰ t.cdrs u.cdrs
unfolding lookup
push_redis-Permᴰ_example =
    push_redis-Permᴰ cache view promises env 3 500 (codes "s2") (codes "s3") two
      ((codes "c-2", second) ∷ (codes "c-1", invite) ∷ []) refl
      (record {
        keyed = (refl, (refl, tt));
        distinct = (refl, (refl, tt));
        fits = (inl refl, (inr refl, tt));
      })
      (record { clean = λ j. refl; no_text = λ k. refl }) (Permᴰ.swap refl refl)
