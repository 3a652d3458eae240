-- ===== src/Lib.antt =====
-- Verification of kuro, a server that finds, downloads and streams anime over BitTorrent.
--
-- An episode is played from a torrent. The indexers list candidates; internal/score ranks them and may
-- start one by itself; internal/library/cache.go keeps what is downloaded within a budget, on the rows
-- that internal/store/cache.go holds; internal/jobs runs the sweep and the other recurring work.
--
-- Base holds what the modules share: tests on the native numbers, lists, texts as lists of code points,
-- and the integers of a difference (Base/Int). Regex is the part of Go's regular expressions that the
-- patterns use, as a matcher that returns all ends of a match; Strings is the part of `strings` and
-- `strconv`. Both are on ASCII: case folding of other characters is left out.
--
-- Release: internal/parse, `Release` and `HasSubtitleLanguage`. A parsed name is a value.
--
-- Score: internal/score/score.go and specs.go. Score/Tier has `ParseTier` (parse_tier), `matches`
-- (tier_matches) and the preferences; Score/Candidate the candidate, `SizeLimit` and `EpisodeBytes`;
-- Score/Specs the table `specs` and `evaluateSpecs`; Score/Evaluate `evaluate`, one function for each
-- of its parts, composed in the order of the code; Score/Rank `better`, the insertion sort of `Rank`
-- (sink is its inner and insert_all its outer loop, on the sorted part in reverse) and `Best`. The
-- float64 type is a parameter (Score/Float) of which only the laws of comparison are used, so the
-- results hold for any rounding. Score/Order has the order as a chain of keys, Score/Sort the sort for
-- any test, Score/Ranking and Score/Acceptance the results on `Rank`, `Best` and automatic picks.
--
-- Film: internal/film/film.go. Film/Words has `tokens` and `distinctive`, Film/Number `stated` and
-- `Number` (its patterns with groups as functions that try the choices in the order of the pattern; a
-- replacement runs on the length of the name as fuel, which is enough since each round reads at least
-- one character), Film/Key `New`, `fit` and `judge`, Film/Pick `Pick`. Film/Key/Fit shows the order of
-- the evidence and what `fit` finds; Film/Key/Verdicts and Film/Pick/Laws have the results. Video is
-- internal/parse/video.go.
--
-- Cache: Cache/Entry has the rows as `CacheEntries` lists them and `CacheUsage`; Cache/Store the
-- statements that change them; Cache/Order `evictionOrder` and `torrentBytes`, a map being a
-- function of its key; Cache/Evict `evict` and `evictDownTo`; Cache/Sweep `Sweep`, `MakeRoom`,
-- `AutoDelete` and `Clear`; Cache/Remove `Remove` and `liveID`; Cache/Stall `watch`, `unwatch`
-- and `stalled`; Cache/Vanish `missing`, `present` and `forgetVanished`. Base/Maps has the maps
-- that are stored, as lists of pairs. The engine behind the client of internal/torrent, the
-- deletion of files and the failure of a statement are a parameter (Outside) with a state of its
-- own and no laws, so it may answer anything. Byte counts are natural numbers, since none is
-- negative, and the running total of an eviction is an integer. The refresh that begins a
-- sweep is left out, but for what it forgets (Cache/Vanish), and reads of the database succeed.
--
-- Queue: internal/store/queue.go and internal/library/queue.go. Queue/Rows and Queue/Claim have the
-- statements on download_queue as functions on its rows (a failing one changes none), Queue/Worker the
-- Downloader and the calls that reach it, Queue/Step the worker's `step` in three parts (claim_next,
-- take_up, end_step), between which other calls come. Queue/Runs has all of them as steps in any
-- order, with restarts of the program; Queue/Rounds the loop of `Run` left alone, a round being one
-- pass with its clock and the end of its download. Contexts are the flag `stopped`.
--
-- Access: internal/server/access.go, internal/server/approval.go and internal/store/access.go.
-- Access/Request has what a request says of where it comes from, Access/Approvals the devices that the
-- host lets in, Access/Guard `guard`, `admit` and `hostOnly`. A request, decision or restart is one
-- step, and a change of mode is two, since it is stored before approvals.mu is taken; Access/Runs takes
-- them in any order, changes of mode one at a time; each read or write
-- of the database may fail on its own. Addresses, hashes and random secrets are parameters without laws.
--
-- Sync: internal/store/sync.go, internal/library/sync.go and the upsert of internal/store/library.go. The
-- statements name the row by its show, so the model is the row of one show, and where it is not on the
-- list, none. Sync/Entry and Sync/Remote have the statements, Sync/Push `pushLatest` in the three parts between which
-- calls change the row, a merge and `Remove`, with what AniList was last told beside the state;
-- Sync/Runs all of these as steps in any order. ImportList's replacing mode, which overwrites edits on
-- purpose, is left out, and a merge is not taken while a push is in flight.
--
-- Match: internal/match. Match/Dice has `dice` with its two loops, Match/Shared and Match/Bounds what they
-- count; Match/Index the token index (`Add` and `candidates` of match.go) on the significant words of
-- each title, Match/Scan the scan that it stands for.
--
-- Jobs: internal/jobs/jobs.go. An entry and a scheduler are records, `claim`, `finish`, `Add`, `RunAs`
-- and `Status` functions on them, and the time of a call is an argument. Jobs/Runs has the steps that
-- the goroutines take, in any order, and a history beside the state; what a job does is how it ends.
--
-- Engine: internal/engine/layout.go (Engine/Layout: `top`, `claim`, `forget`), census.go (Engine/Census:
-- `note` in two parts, `firstFew`) and regroup.go (Engine/Regroup: `remember`, `tryAgain`, and `regroup`
-- up to the calls of the torrent library). A map's order is that of a list.
--
-- Every other loop runs over a list and is structural recursion, so it uses no fuel.
--
-- Not modelled: internal/bt, a copy of another project's torrent library; the other HTTP handlers, the
-- clients of services, processes, the database driver and the front end, which are input and output;
-- the packages transcode and update, and of match the scores; and of engine what calls the torrent
-- library.
pub mod Access
pub mod Base
pub mod Cache
pub mod Engine
pub mod Film
pub mod Jobs
pub mod Match
pub mod Queue
pub mod Regex
pub mod Release
pub mod Score
pub mod Strings
pub mod Sync
pub mod Video
