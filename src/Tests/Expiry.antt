-- ===== src/Tests/Expiry.antt =====
-- The files that are read, the names of sets, and a restart with two sets left.
use cdrrs.Base.{
  ℕ, ◌+◌, ◌-◌, ◌*◌, ◌/◌, ◌%◌, ◌<◌, ◌≡◌, refl, ap, true, false, List, [], ◌∷◌, ◌++◌, Option, none,
  some, ok, err, All, Bytes, codes, arith, drop, ◌==◌, if◌then◌else◌, leb, length,
}
use cdrrs.Model.Item.{SipCache, empty_sip_item}
use cdrrs.Service.Line.{do_line}
use cdrrs.Service.Files.{FileInfoX}
use cdrrs.Service.Files.Workers.{eof, failed, line, Task, Workers, parse_loop}
use cdrrs.Service.Files.Workers.Lines.{
  is_ended, parse_all, all_lines, IsReadable, how_many, parse_loop-all_lines,
}
use cdrrs.Dao.Redis.{Redis, Command, scan, other}
use cdrrs.Dao.Sets.{select_db, get_expired_sip_item_keys_sets}
use cdrrs.Dao.Scanned
use cdrrs.Dao.Scanned.{all_keys}
use cdrrs.Service.Expiry.{Zone, sip_item_keys_set_id}
use cdrrs.Service.Expiry.Names.{IsZone}
use cdrrs.Service.Expiry.Timers.{AreDue}
use cdrrs.Service.Expiry.Pool.{capacity, run}
use cdrrs.Service.Expiry.Pool.Startup.{run-AreDue}
use cdrrs.Tests.Data

-- What the lines of the files give.
abbrev input : Bytes → List SipCache → List SipCache
input bs items = elim (do_line Data.env.positions Data.fresh empty_sip_item bs) [
  | none ↦ items
  | some item ↦ items ++ item ∷ []
]

abbrev file : Bytes → FileInfoX
file name = record { name = name; filepath = codes "root/" ++ name; dtime = 7 }

abbrev tasks : List Task
tasks =
    record {
      file = file (codes "a.txt");
      openable = true;
      reads = line (codes "no row") ∷ failed ∷ eof ∷ [];
    }
    ∷ record { file = file (codes "b.txt"); openable = false; reads = [] }
    ∷ record { file = file (codes "c.txt"); openable = true; reads = line (codes "x") ∷ eof ∷ [] }
    ∷ []

abbrev idle : Workers (List SipCache)
idle = record { output = []; num_workers = 0; num_files = 4294967295 }

readable : All (λ (task : Task). task.openable ≡ true → IsReadable input (codes "root") task) tasks
unfolding is_ended
readable = (
  (λ e. record { under_root = omega arith; ended = refl }),
  ((λ e. cc), ((λ e. record { under_root = omega arith; ended = refl }), tt)),
)

parse_loop-all_lines_example :
    parse_loop input (codes "root") tasks idle
    ≡ ok (record {
      output = parse_all input (codes "root") (all_lines tasks) [];
      num_workers = (0 + how_many false tasks) % 4294967296;
      num_files = (4294967295 + how_many true tasks) % 4294967296;
    })
parse_loop-all_lines_example =
    parse_loop-all_lines input (codes "root") tasks idle readable (omega arith) (omega arith)

-- A clock for the first second of a day, and what reads it.
abbrev digits : ℕ → Bytes
digits n = (b'0' + n / 100) ∷ (b'0' + n / 10 % 10) ∷ (b'0' + n % 10) ∷ []

unfoldable number : Bytes → Option ℕ
number (a ∷ b ∷ c ∷ []) = some (((a - b'0') * 100 + ((b - b'0') * 10 + (c - b'0'))) * 1000000)
number _ = none

abbrev zone : Zone
zone = record {
  format = λ t. codes "20201201000000" ++ (b'.' ∷ digits (t / 1000000));
  parse_in_location = λ s. number (drop 15 s);
}

parse-format_zone :
    (t : ℕ) → t < 1000000000 → number (digits (t / 1000000)) ≡ some (t / 1000000 * 1000000)
unfolding number
parse-format_zone t h = ap some (omega arith)

abbrev is_zone : IsZone zone
is_zone = record {
  Readable = λ t. t < 1000000000;
  seconds = λ t. codes "20201201000000";
  milliseconds = λ t. digits (t / 1000000);
  format_is = λ t h. refl;
  no_point = λ t h. (
    refl,
    (
      refl,
      (
        refl,
        (refl, (refl, (refl, (refl, (refl, (refl, (refl, (refl, (refl, (refl, (refl, tt))))))))))),
      ),
    ),
  );
  length-seconds = λ t h. refl;
  length-milliseconds = λ t h. refl;
  parse-format = parse-format_zone;
}

-- A server that has a set on each of two pages.
data Reply : Type 0 where
  status : Reply
  page : ℕ → List Bytes → Reply

abbrev id : ℕ → Bytes
id t = sip_item_keys_set_id zone t

abbrev scan_reply : ℕ → Reply
scan_reply cursor = if cursor == 0 then page 5 (id 1000000 ∷ []) else page 0 (id 2000000 ∷ [])

abbrev reply : Command → Reply
reply (scan cursor) = scan_reply cursor
reply _ = status

abbrev cursor_and_keys : Reply → Option (ℕ × List Bytes)
cursor_and_keys status = none
cursor_and_keys (page n ks) = some (n, ks)

abbrev pages_redis : Redis
pages_redis = record {
  State = ℕ;
  Answer = Reply;
  take_conn = λ s. (7, s);
  close = λ c s. s;
  call = λ c command s. (reply command, s + 1);
  failed = λ a. false;
  send = λ c command s. (false, s);
  flush = λ c s. (false, s);
  as_bytes = λ a. err other;
  as_byte_slices = λ a. err other;
  as_strings = λ a. err other;
  as_int = λ a. err other;
  as_scan = cursor_and_keys;
}

run-AreDue_example :
    (timers : List (Bytes × ℕ)) × (u : ℕ) × (run zone
        (get_expired_sip_item_keys_sets pages_redis 2)
        5000000000
        (λ i. 3000000000 * (i + 1))
        0
      ≡ some (
        (if leb (length {A = ℕ} (1000000 ∷ 2000000 ∷ [])) capacity then some timers else none),
        u,
      ))
    × AreDue zone is_zone 5000000000 (λ i. 3000000000 * (i + 1)) 0 (1000000 ∷ 2000000 ∷ []) timers
unfolding select_db all_keys
run-AreDue_example =
    run-AreDue pages_redis zone is_zone 5000000000 (λ i. 3000000000 * (i + 1)) 2 0 3
      ((id 1000000 ∷ []) ∷ (id 2000000 ∷ []) ∷ []) (1000000 ∷ 2000000 ∷ []) (omega arith) refl
      (Scanned.Scans.next refl refl (Scanned.Scans.last refl)) refl (omega arith, (omega arith, tt))
