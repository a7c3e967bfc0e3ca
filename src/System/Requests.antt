-- ===== src/System/Requests.antt =====
-- What an HTTP request does to the outbox, whichever route it takes.
use soarcore.Common.{ap, Option, []}
use soarcore.Json.{Json}
use soarcore.Auth.{Principal}
use soarcore.Schema.{Registry}
use soarcore.World.{Env, Uuid, World}
use soarcore.Api.{Response}
use soarcore.Api.Outcomes.{CreateAnswer, PatchAnswer}
use soarcore.Api.Router.{Request, Chi, Server, router}
use soarcore.Api.Router.Served.{Served, quiet, created, patched, registered, beaten, router-Served}
use soarcore.System.Growth.{Grows, same-Grows, Created-Grows, Patched-Grows, IsRefusal-Grows}

module _ (env : Env) where
  CreateAnswer-Grows :
      (who : Option Principal) (whose : Option Uuid) (body : Option Json) (w : World)
      (o : Response × World)
      → CreateAnswer env who whose body w o
      → Grows env w.db o.1.db
  CreateAnswer-Grows who whose body w _ (CreateAnswer.created p tenant r inc v _ _ _ made) =
      Created-Grows env _ tenant p r.input inc w.db v.db made
  CreateAnswer-Grows who whose body w _ (CreateAnswer.unknown p tenant r inc a v _ _ _ _ made) =
      Created-Grows env _ tenant p r.input inc w.db v.db made
  CreateAnswer-Grows who whose body w _ (CreateAnswer.refused p tenant corr a v _ _ _ left) =
      IsRefusal-Grows env tenant p corr _ _ w.db v.db left
  CreateAnswer-Grows who whose body w _ (CreateAnswer.failed a v _ same) =
      same-Grows env w.db v.db same

  PatchAnswer-Grows :
      (registry : Registry) (who : Option Principal) (whose named : Option Uuid)
      (body : Option Json) (w : World) (o : Response × World)
      → PatchAnswer env registry who whose named body w o
      → Grows env w.db o.1.db
  PatchAnswer-Grows registry who whose named body w _
        (PatchAnswer.patched p tenant id r a inc v _ _ _ _ _ done) =
      Patched-Grows env registry p _ tenant id _ inc w.db v.db done
  PatchAnswer-Grows registry who whose named body w _
        (PatchAnswer.unknown p tenant id r a inc answer v _ _ _ _ _ _ done) =
      Patched-Grows env registry p _ tenant id _ inc w.db v.db done
  PatchAnswer-Grows registry who whose named body w _
        (PatchAnswer.refused p tenant id corr a v _ _ _ left) =
      IsRefusal-Grows env tenant p corr _ _ w.db v.db left
  PatchAnswer-Grows registry who whose named body w _ (PatchAnswer.failed a v _ same) =
      same-Grows env w.db v.db same

  module _ (chi : Chi) (s : Server) (r : Request) where
    Served-Grows :
        (w : World) (o : Response × World) → Served env chi s r w o → Grows env w.db o.1.db
    Served-Grows w _ (quiet given v same) = same-Grows env w.db v.db same
    Served-Grows w _ (created p tenant id o _ _ given) = CreateAnswer-Grows _ _ r.body w o given
    Served-Grows w _ (patched p tenant id o _ _ given) =
        PatchAnswer-Grows s.service.registry _ _ _ r.body w o given
    Served-Grows w _ (registered p tenant id q reg v _ _ _ done) =
        ([], tt, done.stored.rest_kept.2, done.stored.rest_kept.3)
    Served-Grows w _ (beaten p tenant id given v _ _ set) =
        ([], tt, ap (λ b. b.outbox) set, ap (λ b. b.next_outbox_id) set)

    pub router-Grows : (w : World) → Grows env w.db (router env chi s r w).1.db
    router-Grows w = Served-Grows w _ (router-Served env chi s r w)
