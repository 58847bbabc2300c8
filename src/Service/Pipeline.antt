-- ===== src/Service/Pipeline.antt =====
-- The parts of service together: the goroutines of service/parser.go call `DoLine` of
-- service/serve.go for the lines of their files, and its items meet in the channel of `Input`.
pub mod Merged
pub mod Whole
pub mod Delivered
use cdrrs.Base.{◌≡◌, List, [], ◌∷◌, ◌++◌, Option, none, some, Result, ok, err, All, Bytes}
use cdrrs.Sip.Message.{SipMsg}
use cdrrs.Model.Item.{SipCache}
use cdrrs.Model.Position.{Positions}
use cdrrs.Service.Line.{do_line}
use cdrrs.Service.Files.Workers.{Task, Workers, Stop, parse_loop}

abbrev pub sent : Option SipCache → List SipCache
sent none = []
sent (some item) = item ∷ []

-- `parseFunc` is `DoLine`: the items that a goroutine has sent so far, with those of a line.
unfoldable pub input_line : Positions → SipMsg → SipCache → Bytes → List SipCache → List SipCache
input_line ps message pooled line items = items ++ sent (do_line ps message pooled line)

abbrev idle : Workers (List SipCache)
idle = record { output = []; num_workers = 0; num_files = 0 }

abbrev output_of : Result Stop (Workers (List SipCache)) → Result Stop (List SipCache)
output_of (err e) = err e
output_of (ok w) = ok w.output

and_then : List SipCache → Result Stop (List (List SipCache)) → Result Stop (List (List SipCache))
and_then items (err e) = err e
and_then items (ok rest) = ok (items ∷ rest)

-- What each goroutine sends, for the files that it takes from the queue; the counters that they
-- share are left out.
unfoldable pub inputs :
    Positions → SipMsg → SipCache → Bytes → List (List Task) → Result Stop (List (List SipCache))
unfolding and_then input_line
inputs ps message pooled root_path [] = ok []
inputs ps message pooled root_path (tasks ∷ more) =
    let rest = inputs ps message pooled root_path more in
    elim (output_of (parse_loop (input_line ps message pooled) root_path tasks idle)) [
      | err e ↦ err e
      | ok items ↦ and_then items rest
    ]

-- A channel without a buffer, to which several goroutines send: what is received is one of the
-- merges of what each of them sends.
pub data Merge {A : Type 0} : List (List A) → List A → Type 0 where
  ends : {xss : List (List A)} → All (λ (xs : List A). xs ≡ []) xss → Merge xss []
  takes :
      {xss : List (List A)} {l : List A} (before : List (List A)) (x : A) (xs : List A)
      (behind : List (List A))
      → xss ≡ before ++ (x ∷ xs) ∷ behind
      → Merge (before ++ xs ∷ behind) l
      → Merge xss (x ∷ l)
