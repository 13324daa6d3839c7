-- ===== src/Crawl/Job/Bounds.antt =====
-- What the loop of `processCrawlJob` in src/ingestion/ingestion.service.ts may do, whatever the pages and
-- the answers are.
use ranking.Prelude.{◌≤◌, ◌≡◌, true, false, List, [], ◌∷◌, map, All}
use ranking.Prelude.Texts.{Text, text_key}
use ranking.Crawl.Job.{
  Job, QueueItem, FetchCall, Written, Loop, seen, fingerprint, is_host_allowed, is_violation,
}

module _ (job : Job) where
  abbrev pub IsShallow : QueueItem → Type 0
  IsShallow item = item.depth ≤ job.max_depth

  -- Requests may be sent for the item, in at most six attempts.
  abbrev pub IsRequestable : FetchCall → Type 0
  IsRequestable r =
      (is_host_allowed job r.item.url ≡ true)
      × (is_violation job r.item.url ≡ false)
      × IsShallow r.item
      × (r.attempts ≤ 6)

  abbrev fingerprints : List FetchCall → List Text
  fingerprints requests = map (λ r. fingerprint job r.item.url) requests

  abbrev written_fps : List Written → List Text
  written_fps rows = map (λ w. w.fp) rows

  -- No fingerprint stands twice in the list.
  abbrev pub IsDistinct : List Text → Type 0
  IsDistinct [] = Unit
  IsDistinct (f ∷ fps) = (seen f fps ≡ false) × IsDistinct fps

  -- All were visited.
  abbrev AreSeen : List Text → List Text → Type 0
  AreSeen visited fps = All (λ f. seen f visited ≡ true) fps

  -- The rows and the requests are of visited addresses, one of each, and requests may be sent.
  abbrev pub IsSound : Loop → Type 0
  IsSound s =
      All IsShallow s.frontier.queue
      × (AreSeen s.visited (written_fps s.written) × IsDistinct (written_fps s.written))
      × (AreSeen s.visited (fingerprints s.requested) × IsDistinct (fingerprints s.requested))
      × All IsRequestable s.requested
      × ((s.processed ≤ job.max_urls) × (s.depth_skipped ≡ 0))
