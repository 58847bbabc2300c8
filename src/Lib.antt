-- ===== src/Lib.antt =====
-- The verification library of the CDR restoration service: SIP messages, captured as rows of text
-- files, are parsed, the two halves of each call are paired, and each pair becomes a call detail
-- record.
--
-- The way of a message through the program, and the files that model it:
--
--   * Sip: model/prot/sip. `Parse` of sip.go (Sip/Message) splits a message into lines, reads the
--     first with `parseSipReq` (Sip/RequestLine) and each header by its name with `parseSipFrom`,
--     `parseSipTo`, `parseSipContact`, `parseSipVia` and `parseSipCseq` (Sip/From, Sip/To,
--     Sip/Contact, Sip/Via, Sip/Cseq). The three parsers of a session description are in Sip/Sdp;
--     a `continue` in front of their calls keeps `Parse` from them. Each parser is a loop over
--     `pos` and `state`: Sip/Fsm has that loop over a step, and each file the step, one clause for
--     each case of the source's switch. The helpers `indexSep`, `getString` and `getBytes` of sip.go
--     are in Sip/Slices.
--   * Model: model. position.go (Model/Position) answers where a number is from, from the tables
--     that `CacheNumberPositions` fills. sippkt.go is in Model/Row (`pretreatment`, `split`,
--     `RawTextData`), Model/Atoi (`atoi`), Model/Number (`ExtractLegalNumber`) and Model/Packet
--     (`ParseSipPacket`); sipcache.go in Model/Item (`SipCache`, `NewSipItemFromSipPacket`);
--     cdr.go in Model/Cdr (`NewCDR`, `NewExpiredCDR`, `SetCDRId` and its like).
--   * Service: service/synth.go. Service/Todo is the map of items that wait, Service/Synth has
--     `synthesize`, `append` and the loop of `trySynthesize`, and Service/Loop the events of
--     `realTimeSynth` and of `expiredSynth`, with the handler of `OnExpired` of service/serve.go,
--     over the interface of the cache, Service/Dao; what a cache promises is in Service/Dao/Store.
--     In front of it is `DoLine` of service/serve.go (Service/Line), behind it `handleCDR`
--     (Service/Records), which lists its calls of the database and of Kafka. The sets of keys that a
--     process has left are taken up at start-up (Service/Expiry: `sipItemKeysSetId`,
--     `parseTimeFromSetId`, `unrelatedExpiredKeysSynth`), and `Run` sends their timers to the channel
--     that `expiredSynth` empties (Service/Expiry/Pool). Service/Account says what becomes of the
--     halves of calls without the loops, the map and the cache: the runs of the loops are moves of
--     it. Service/Race has `handleExpiredKeySet` call by call, beside `realTimeSynth`. The lines come from service/parser.go:
--     `FlushFiles` is in Service/Files, with the dates of its paths in Service/Files/Calendar, and
--     `parseFile` and `parseLoop` in Service/Files/Workers, and `Run` in Service/Files/Start.
--     Service/Channel has a channel with the goroutines that empty it, of which those of the timers
--     and of the files are two. Service/Pipeline puts the parts together as `New` of
--     service/serve.go does, from the files to the database.
--   * Dao: dao. redis_sipitem.go is in Dao/Items (the items) and Dao/Sets (the sets of keys, with
--     `selectDB`), over the Redis client and the JSON encoding as parameters (Dao/Redis); Dao/Filled
--     makes it the cache of the synthesizer, Dao/Selected says what the databases of connections do,
--     and Dao/Server what is assumed of a server that is up. mysql_cdr.go is in Dao/Statements, where
--     the statements that are executed are listed, and mysql_phone_postion.go in Dao/Tables.
--   * Kafka: `Producer` of common/kafka/producer.go, as a relation between its states.
--   * Base and Bytes: what these share, the functions of Go's `bytes`, `strings` and `strconv` that
--     they call among it. Byte strings are lists of numbers, for Go's strings and byte slices.
--   * Tests: each theorem with hypotheses applied to concrete data.
--
-- A function that writes through a pointer, or to an object of a pool, takes the old value and
-- returns the new one; an error is a sum, an option or a Boolean, with the value that the source
-- leaves beside it. `log.Panicf` and `log.Fatalf` end a run: they are the errors of `Result Crash`.
-- The goroutines of the synthesizer share only the cache. In Service/Loop one event of any of them is
-- one step, and a run is any sequence of these; in Service/Race the handler of a set takes one step
-- for each of its calls. The channel without a buffer in front of `realTimeSynth` is a merge of what
-- the goroutines send to it.
--
-- Fuel: the loop of a parser has 2 * length + 2 rounds for a line. Each round advances, or leaves a
-- state to which no round at the same position returns, so the fuel is never used up.
--
-- The loop over the pages of SCAN has fuel, and a number of rounds that is at least that of the pages
-- is enough. The years of the paths of days have four digits.
--
-- Parameters: `time.ParseInLocation`, which depends on the machine's time zone; the clock; what the
-- pools give; the tables of positions; the cache, and behind it the Redis client, its server and the
-- encoding of items; the directories, the files and what reading them gives; the order that
-- `sort.Sort` leaves equal times in. The map of items is an association list, in the
-- order in which a range over it visits it, and Go leaves that order open.
--
-- The bounds of the channels are the source's: 10000 timers, 1024 files.
--
-- Not modelled: the logs, the printing of a parsed message, the consumers of common/kafka,
-- which the service does not start, the statement that creates a table, the reading of configuration.
-- The libraries under common (a local cache, a Redis client, pools, tracing) are copies of other
-- projects. The database and the Kafka client are outside the library.
pub mod Base
pub mod Bytes
pub mod Sip
pub mod Model
pub mod Dao
pub mod Service
pub mod Kafka
mod Tests
