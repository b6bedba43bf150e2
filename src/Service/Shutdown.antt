-- ===== src/Service/Shutdown.antt =====
-- `shutdown`: the end of the capture owner with the service.
use wlanpi_utilization.Prelude.{Bool, not, Option, none, some, List, [], ◌∷◌, String, if◌then◌else◌}
use wlanpi_utilization.Runtime.{stopping, is_active}
use wlanpi_utilization.Service.Broker.{
  ServicePayload, interrupted, kill_sent, ServiceBroker, PollAnswers, do_effect, update, poll_owner,
}

abbrev pub forced : String
forced = "Utilization owner did not stop; forced exit cannot guarantee radio restoration"

module _ {S : ServicePayload} where
  -- The loop of `shutdown` until its deadline, one list element for each round that is in time.
  unfoldable pub await_owner :
      ServiceBroker S → List (PollAnswers S) → ServiceBroker S × Option String
  await_owner b [] = (b, none)
  await_owner b (a ∷ rest) =
      let (polled, raise) = poll_owner b a in
      let next = await_owner polled rest in
      if b.process then elim raise [ some m ↦ (polled, some m) | none ↦ next ] else (b, none)

  -- The signals of `shutdown`, before the loop.
  unfoldable pub request_end : ServiceBroker S → Bool → ServiceBroker S
  unfolding update
  request_end b alive =
      let asked = if alive then do_effect interrupted b else b in
      if is_active asked.publication.phase
      then update asked (record asked.publication { phase = stopping })
      else asked

  -- `kill` and what follows, on whether the process ends in time and the answers of the last poll.
  unfoldable pub kill_owner :
      ServiceBroker S → Bool → PollAnswers S → ServiceBroker S × Option String
  kill_owner b ended_in_time last =
      let killed = do_effect kill_sent b in
      let (polled, raise) = poll_owner killed last in
      if not ended_in_time
      then (killed, some "timed out")
      else elim raise [ some m ↦ (polled, some m) | none ↦ (polled, some forced) ]

  -- What follows the loop.
  unfoldable pub check_end :
      ServiceBroker S → Bool → PollAnswers S → ServiceBroker S × Option String
  unfolding kill_owner
  check_end b ended_in_time last = if b.process then kill_owner b ended_in_time last else (b, none)

  -- What follows the first poll.
  unfoldable pub end_owner :
      ServiceBroker S
      → Bool
      → List (PollAnswers S)
      → Bool
      → PollAnswers S
      → ServiceBroker S × Option String
  unfolding await_owner request_end check_end
  end_owner b alive rounds ended_in_time last =
      let (waited, raise) = await_owner (request_end b alive) rounds in
      if not b.process
      then (b, none)
      else elim raise [ some m ↦ (waited, some m) | none ↦ check_end waited ended_in_time last ]

  -- The broker, and what the shutdown raises, if it does.
  unfoldable pub shutdown :
      ServiceBroker S
      → PollAnswers S
      → Bool
      → List (PollAnswers S)
      → Bool
      → PollAnswers S
      → ServiceBroker S × Option String
  unfolding end_owner
  shutdown b first alive rounds ended_in_time last =
      let (polled, raise) = poll_owner b first in
      elim raise [
        | some m ↦ (polled, some m)
        | none ↦ end_owner polled alive rounds ended_in_time last
      ]
