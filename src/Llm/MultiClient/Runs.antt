-- ===== src/Llm/MultiClient/Runs.antt =====
-- Sequences of the operations of the manager.

use go_saas_api.Common.{Bool, List, [], ◌∷◌, String, string_eq}
use go_saas_api.Llm.MultiClient.Order.{
  IsOrdered, IsOrdered-new, register-IsOrdered, stream-IsOrdered, revive_all-IsOrdered,
}
use go_saas_api.Llm.MultiClient.{
  ProviderConfig, MultiClient, register, stream, run_health_checks, Answer, new_multi_client,
}

-- An operation of the manager. `serve` is a request, streamed or not, under what the clients
-- answer to it.
pub data Operation (Client : Type 0) : Type 1 where
  add : ProviderConfig Client → Operation Client
  serve : {A : Type 0} → (Client → Answer A) → (model : String) → Operation Client
  recheck : (Client → Bool) → Operation Client

module _ {Client : Type 0} where
  unfoldable pub perform : Operation Client → MultiClient Client → MultiClient Client
  perform (add cfg) mc = register cfg mc
  perform (serve call model) mc = (stream call model mc).1
  perform (recheck check) mc = run_health_checks check mc

  unfoldable pub perform_all : List (Operation Client) → MultiClient Client → MultiClient Client
  unfolding perform
  perform_all [] mc = mc
  perform_all (op ∷ ops) mc = perform_all ops (perform op mc)

  perform-IsOrdered :
      (op : Operation Client) (mc : MultiClient Client) → IsOrdered mc → IsOrdered (perform op mc)
  unfolding perform run_health_checks
  perform-IsOrdered (add cfg) mc h = register-IsOrdered cfg mc
  perform-IsOrdered (serve call model) mc h = stream-IsOrdered call model mc h
  perform-IsOrdered (recheck check) mc h = revive_all-IsOrdered check mc.providers mc h

  perform_all-keeps :
      (ops : List (Operation Client)) (mc : MultiClient Client)
      → IsOrdered mc
      → IsOrdered (perform_all ops mc)
  unfolding perform_all
  perform_all-keeps [] mc h = h
  perform_all-keeps (op ∷ ops) mc h =
      perform_all-keeps ops (perform op mc) (perform-IsOrdered op mc h)

  -- After any sequence of registrations, requests and health checks, whatever the clients answer,
  -- the fallback order is a rearrangement of the enabled providers by falling weight.
  pub perform_all-IsOrdered :
      (ops : List (Operation Client)) → IsOrdered (perform_all ops new_multi_client)
  perform_all-IsOrdered ops = perform_all-keeps ops new_multi_client IsOrdered-new
