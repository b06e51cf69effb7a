-- ===== src/Node/Heartbeat.antt =====
-- swarm/node/node.go: the announcements that `Run` makes, by `RunWithTicker` of helper/timer/timer.go.
use juren_cluster.Prelude.{
  append_one, append_none, ◌≡◌, refl, ◌∙◌, Option, none, some, List, [], ◌∷◌, ◌++◌, map,
}
use juren_cluster.Outcome.{Result, ok, err, Error}
use juren_cluster.LevelDb.{Storage}
use juren_cluster.Protocol.{PeerAnnouncementMessage}
use juren_cluster.Timer.{done, tick, returned, run_with_ticker}
use juren_cluster.Timer.Laws.{fold, run_with_ticker-fold}
use juren_cluster.Node.{Node}
use juren_cluster.Node.Handlers.{announcement, publish_peer_announcement}

abbrev written : Option Error → Result (Unit {0})
written none = ok tt
written (some e) = err e

module _ (S : Storage) where
  -- At a tick there are the node, and the error of publishing, if any. The state is what `Publish`
  -- was given so far.
  unfoldable pub announce :
      Node S × Option Error
      → List PeerAnnouncementMessage
      → List PeerAnnouncementMessage × Result (Unit {0})
  announce (n, e) sent =
      publish_peer_announcement S (λ msg given. (given ++ msg ∷ [], written e)) n sent

  abbrev with_announcement :
      Node S × Option Error → List PeerAnnouncementMessage → List PeerAnnouncementMessage
  with_announcement (n, e) sent = sent ++ announcement S n ∷ []

  announce-succeeds :
      (x : Node S × Option Error) (sent : List PeerAnnouncementMessage)
      → announce x sent ≡ (with_announcement x sent, ok tt)
  unfolding announce publish_peer_announcement
  announce-succeeds (n, none) sent = refl
  announce-succeeds (n, some e) sent = refl

  abbrev pub announcements : List (Node S × Option Error) → List PeerAnnouncementMessage
  announcements [] = []
  announcements ((n, e) ∷ xs) = announcement S n ∷ announcements xs

  fold-announcements :
      (sent : List PeerAnnouncementMessage) (xs : List (Node S × Option Error))
      → fold with_announcement sent xs ≡ sent ++ announcements xs
  fold-announcements sent [] = append_none sent
  fold-announcements sent ((n, e) ∷ xs) =
      fold-announcements (sent ++ announcement S n ∷ []) xs
      ∙ append_one sent (announcement S n) (announcements xs)

  -- Up to the end of its context, the loop of `RunWithTicker` over `publishPeerAnnouncement`
  -- gives `Publish` one announcement at each tick, that of the node as it is then, whether or
  -- not publishing succeeds, and then ends with the error of the context.
  pub run_with_ticker-announcements :
      (e : Error) (xs : List (Node S × Option Error))
      → run_with_ticker announce [] (map tick xs ++ done e ∷ []) ≡ (announcements xs, returned e)
  run_with_ticker-announcements e xs =
      run_with_ticker-fold announce with_announcement announce-succeeds e [] xs
      ∙ rw (fold-announcements [] xs)
