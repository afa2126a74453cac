-- ===== src/Lib.antt =====
-- Verification of the museum catalogue: how its servers and crawlers keep their promises to the
-- museums' own websites, to their visitors and to the tables that they write.
--
-- The parts, and the files that model them.
--
-- Ratelimit: internal/ratelimit/gate.go. A Gate spaces the requests of many callers. Its methods are
--   functions from gate to gate, in the order in which the mutex lets them in; `run` takes any
--   sequence of them. Durations are int64 patterns with their wrap-around (Ratelimit/Int64); the
--   theorems ask for durations below 2 ^ 62 ns, which is some 146 years.
-- Sweep/Schedule: internal/sweep/schedule.go. Next chooses when a museum's website is read again.
-- Sweep/Row: internal/postgres/sweeps.go, the site_scrapes table: DiscoverSites, ClaimDueSites,
--   scanTargets and RecordScrape on one row; Sweep/Row/History is a row's life as a relation.
-- Sweep/Listings: the exhibitions table: SaveExhibitions of internal/postgres/postgres.go,
--   RetireUnseen, TouchSite and SoonestClose of internal/postgres/sweeps.go.
-- Sweep/Runner: internal/sweep/runner.go. Read takes what the scraper returned and writes through a
--   `Store`, a record of the operations that the sweep needs; Sweep/Runner/Reading fills it with the
--   two tables above, over a record `Database` of which rows and statements the database accepts.
--   Fingerprint digests a reading; SHA-256 and the layout of dates are arguments.
-- Api/RateLimit: internal/api/ratelimit.go. Token buckets and in-flight slots, by client. The map of
--   buckets is an association list with each client once. Tokens are exact numbers in units of 10 ^ -9,
--   where the source has float64. allow reads its instant before it takes the mutex, so that may lie
--   before the one of an earlier call.
-- Api/Scrape: internal/api/scrape.go. The queue of areas scraped for visitors, its maps as
--   functions; Api/Scrape/Lifecycle is the life of many areas at once as a relation, whose steps are
--   what visitors, admitters and collectors do between two releases of the mutex; Api/Scrape/Cooldown
--   is what becomes of an area that has just been read, and Api/Scrape/Dispatch hands out one site at
--   a time and takes the areas in turn.
-- Collect: internal/collect/merge.go. The merger of the catalogues: CleanName and the keys of a
--   museum's names in Collect, mergeInto in Collect/Merge, the Merger with its indexes in
--   Collect/Merger. A record `Unicode` stands for what Go's html, unicode and strings packages say of
--   texts.
-- Service: internal/service/iterator.go. The objects of one message and its acker; Service/Commits
--   counts the commits that any calls of done make, and Service/Acknowledged says which objects are
--   acknowledged by then.
-- Geo: pkg/geo/identify.go. Canonical, ISOCode and their tables; maps are lists of entries.
--   Geo/Spellings computes over the tables with the lower case of ASCII letters.
-- Search and Keys: internal/search/normalize.go and internal/keys/museum.go. Normalize, Tokens and the
--   object keys on code points; what golang.org/x/text folds, the letters and SHA-256 are arguments.
-- Exhibitions: pkg/exhibitions. Days and month names in Exhibitions/Calendar, dates.go in
--   Exhibitions/Dates, where the array of claimed positions is a function and the matches of the
--   regular expressions are the record `Patterns`. extract.go is in Words (its tables, and those of
--   permanent.go), Page (the text, the anchors and the dates of a parsed page), Title, Links
--   (FindListingLinks and its like) and Candidates; permanent.go in Links, Displays and Listing;
--   jsonld.go in Json and Candidates/Declared; robots.txt of fetch.go in Fetch/Robots; service.go in
--   Listing (harvest), Dedupe and Programme (readSite and ForSite, with Stream and uniqueBySite in
--   Programme/Sites). The record `Web` stands for the parsers of HTML, JSON and URLs and `Alphabet`
--   for the tables of the unicode package. The record `Network` says what a page answers and whether
--   the context is over, by the addresses asked for before.
-- Wikipedia: pkg/wikipedia. Table is table.go, Template is stripTemplates of wikitext.go, Classify
--   is classify.go, Topics and Crawl are category.go, Extractor is the loop of extractor.go and Lists
--   is processor.go. Records stand for the API, for geo, for the regular expressions and for the
--   context, of which every look may answer either way; Crawl/Steps is the walk of the category tree
--   as a relation.
-- Prelude and Text: what the parts share. Examples: runs of the theorems at concrete inputs.
--
-- Programme harvests the pages that Links finds, Candidates reads the entries of a page, Listing dates
-- and judges them, and Dedupe makes one entry of the occurrences of an event. The result of ForSite is
-- what the sweep's Runner reads; Sweep/Listings has its exhibitions as the rows that they make.
-- A row that the sweep reads is a Target of the Runner; the Runner asks Schedule for a plan and the
-- tables keep it. The scrape queue uses the same Runner, and the clients of pkg/wikipedia and
-- pkg/location pass a Gate.
--
-- Each function is one step, but enqueue and collect are several, between which the mutex is free:
-- claim, send and unmark of Api/Scrape, and its set_progress and release. Instants and durations are
-- natural numbers of nanoseconds. Every function is total by structural recursion. The walk of the
-- category tree recurses on the levels that are left, nine from the root, since the source returns
-- below a depth of eight. Three functions have fuel and give none without it: Extract has a round for
-- each line of the page, walkCategory a level more than there are categories, and the loop over the
-- pending pages as many rounds as a theorem says there are.
--
-- ForSite asks for ten pages at most: one for the known listing, two for the front page, three for listing
-- pages, two for pages of permanent displays and two for the museum's description of itself, by the
-- bounds maxListingPages, maxPermanentPages and maxInfoPages of the source.
--
-- Texts that are walked through are lists of code points (Text/Bytes); the source cuts them at ASCII
-- characters, where bytes and code points agree. In Exhibitions/Dates positions and the window before a
-- date count code points too, which are the source's bytes where the text is ASCII. In
-- Exhibitions/Title and Candidates a length that the source takes in bytes is in bytes of UTF-8, and a cut
-- inside a character, which the source never finds equal to a phrase, finds none.
--
-- Not modelled: the network clients, the requests of the fetcher, the links and headings of wikitext, the SQL
-- that only selects, the HTTP handlers, the commands and the goroutines, whose interleavings are
-- sequences of steps here.
pub mod Prelude
pub mod Text
pub mod Ratelimit
pub mod Sweep
pub mod Api
pub mod Collect
pub mod Service
pub mod Geo
pub mod Search
pub mod Keys
pub mod Exhibitions
pub mod Wikipedia
pub mod Examples
