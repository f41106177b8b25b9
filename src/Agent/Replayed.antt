-- ===== src/Agent/Replayed.antt =====
-- From the requests that clients write to the requests that are replayed.
use mirror_agent.Base.{
  List, [], ◌++◌, map, ◌≡◌, ◌≢◌, ap, ◌∙◌, Bytes, length, drop, All, drop-length-append,
}
use mirror_agent.Go.Json.{Json}
use mirror_agent.Go.Panic.{returned}
use mirror_agent.Routes.{Table}
use mirror_agent.Mirror.{Network}
use mirror_agent.Mirror.Concurrent.{send_all}
use mirror_agent.Tracker.Request.{incomplete, parse_one_request}
use mirror_agent.Tracker.Request.Written.{Written, IsWritten}
use mirror_agent.Tracker.Request.Framing.{captured}
use mirror_agent.Tracker.Batch.{Batch, starved, crashed, parse_http_requests}
use mirror_agent.Tracker.Batch.Pipeline.{render_all, parse_http_requests-render_all}
use mirror_agent.Tracker.Batch.Append.{leftover}
use mirror_agent.Tracker.Streams.{StreamKey}
use mirror_agent.Tracker.Feed.{Tracker, with_source}
use mirror_agent.Tracker.Feed.Step.{buffer}
use mirror_agent.Tracker.Trace.{Sent, of_stream, history}
use mirror_agent.Tracker.Trace.Advance.{Advances}
use mirror_agent.Tracker.Trace.Streaming.{AllSized}
use mirror_agent.Tracker.Live.{Happening, arrivals_of, IsInTime}
use mirror_agent.Tracker.Live.Streaming.{nothing_buffered, live-Advances}
use mirror_agent.Agent.{agent}

-- What a client has sent on one stream: whole requests, and the beginning of another.
pub record Conversation : Type 0 where
  pub requests : List Written
  pub unfinished : Bytes
  pub all_written : All IsWritten requests
  pub is_unfinished : parse_one_request unfinished ≡ returned incomplete

abbrev pub written : Conversation → Bytes
written c = render_all c.requests ++ c.unfinished

parse-written :
    (c : Conversation)
    → parse_http_requests (written c) ≡ record {
      requests = map captured c.requests;
      consumed = length (render_all c.requests);
      stop = starved;
    }
parse-written c =
    parse_http_requests-render_all c.requests c.unfinished c.all_written c.is_unfinished

-- What is handed to Send of a conversation, and what waits.
pub record Replays (k : StreamKey) (c : Conversation) (u : Tracker) (sent : Sent) : Type 0 where
  pub replayed : of_stream k sent ≡ map (with_source k.src_ip) (map captured c.requests)
  pub waiting : buffer u.streams k ≡ c.unfinished

-- A stream that advances by a conversation replays it.
Advances-Replays :
    (t u : Tracker) (sent : Sent) (k : StreamKey) (c : Conversation) {said : Bytes}
    → buffer t.streams k ++ said ≡ written c
    → Advances k t.streams said u.streams (of_stream k sent)
    → Replays k c u sent
Advances-Replays t u sent k c whole a = record {
  replayed =
      a.requests_are
      ∙ ap (λ z. map (with_source k.src_ip) (parse_http_requests z).requests) whole
      ∙ ap (λ (b : Batch). map (with_source k.src_ip) b.requests) (parse-written c);
  waiting =
      a.left
      ∙ ap leftover whole
      ∙ ap (λ (b : Batch). drop b.consumed (written c)) (parse-written c)
      ∙ drop-length-append (render_all c.requests) c.unfinished;
}

module _ (json : Json) (net : Network) (base : Bytes) (table : Table) where
  -- An agent without streams gets events whose payload arrays hold what they announce, with ticks of
  -- the reaper between them (none within a Feed); no tick comes more than ten seconds behind the last segment of a stream
  -- that has an unfinished request. If the kept segments of each stream make up whole requests and the
  -- beginning of another, then, however they are cut into segments and mixed, the agent does not panic,
  -- hands to Send of each stream exactly those requests, marked with the client's address, once each
  -- and in order, and keeps the unfinished rest buffered.
  pub agent-Replays :
      (t : Tracker) (hs : List Happening) (said : StreamKey → Conversation)
      → t.streams ≡ []
      → AllSized (arrivals_of hs)
      → ((k : StreamKey) → IsInTime k 0 [] hs)
      → ((k : StreamKey) → history k (arrivals_of hs) ≡ written (said k))
      → (u : Tracker) × (sent : Sent) × (agent json net base table t hs ≡ returned (u, sent))
        × ((k : StreamKey) → Replays k (said k) u sent)
  unfolding agent
  agent-Replays t hs said new sized in_time e =
      let heard = arrivals_of hs in
      let whole : (k : StreamKey) → buffer t.streams k ++ history k heard ≡ written (said k) =
        λ k. ap (λ z. z ++ history k heard) (nothing_buffered t.streams k new) ∙ e k in
      let safe : (k : StreamKey)
          → (parse_http_requests (buffer t.streams k ++ history k heard)).stop ≢ crashed =
        λ k q. cc (
          q,
          ap (λ z. (parse_http_requests z).stop) (whole k),
          ap (λ (b : Batch). b.stop) (parse-written (said k)),
        ) in
      let (u, sent, run, advances) =
        live-Advances (send_all json net base table) hs t new sized in_time safe in
      (u, sent, run, λ k. Advances-Replays t u sent k (said k) (whole k) (advances k))
