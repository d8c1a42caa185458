-- ===== src/Bootstrap/Requests.antt =====
-- internal/harness/bootstrap.go: when `BootstrapExternal` returns, and what it has sent then.
use e2e.Base.{
  ◌≡◌, refl, ap, sym, ◌∙◌, ◌↔◌, true, some, List, [], ◌∷◌, ◌++◌, append-nil, append_assoc, Text,
}
use e2e.Base.Maps.{Map, lookup}
use e2e.Run.{done, ◌>>=◌, or_fail}
use e2e.Run.Inversion.{bind-done, bind-run, or_fail-done, verdict-done}
use e2e.Bootstrap.{
  ExternalKeys, Request, register_owner, issue_pipeline, issue_process, no_document, no_delegation,
  no_keys, refused, Registry, send, issue_one, issue_all, bootstrap_external,
}

module _ (registry : Registry) (external : Map ExternalKeys) where
  -- One accepted request for each subject, in their order, with the subject's delegation and the
  -- subject's external keys.
  pub data Issued (issue : Text → Text → ExternalKeys → Request)
      : List Text → List Request → Type 0 where
    none_left : Issued issue [] []
    one_more :
        {subject delegation : Text} {ext : ExternalKeys} {subjects : List Text}
        {requests : List Request}
        → registry.build_delegation subject ≡ some delegation
        → lookup subject external ≡ some ext
        → registry.accepts (issue subject delegation ext) ≡ true
        → Issued issue subjects requests
        → Issued issue (subject ∷ subjects) (issue subject delegation ext ∷ requests)

  -- What was sent by a whole bootstrap.
  pub record Bootstrapped (pipelines processes : List Text) (sent sent' : List Request)
      : Type 0 where
    pub document : Text
    pub for_pipelines : List Request
    pub for_processes : List Request
    pub signed : registry.owner_document ≡ some document
    pub registered : registry.accepts (register_owner document) ≡ true
    pub pipelines_issued : Issued issue_pipeline pipelines for_pipelines
    pub processes_issued : Issued issue_process processes for_processes
    pub all_sent :
        sent' ≡ ((sent ++ (register_owner document ∷ [])) ++ for_pipelines) ++ for_processes

  send-done :
      (request : Request) (sent sent' : List Request)
      → send registry request sent ≡ (done tt, sent')
      → (registry.accepts request ≡ true) × (sent' ≡ sent ++ (request ∷ []))
  unfolding send
  send-done request sent sent' e =
      verdict-done (registry.accepts request) (refused request) (sent ++ (request ∷ [])) sent' e

  send-accepted :
      (request : Request) (sent : List Request)
      → registry.accepts request ≡ true
      → send registry request sent ≡ (done tt, sent ++ (request ∷ []))
  unfolding send
  send-accepted request sent ok = rw (ok, send) refl

  module _ (issue : Text → Text → ExternalKeys → Request) where
    issue_all-done :
        (subjects : List Text) (sent sent' : List Request)
        → issue_all registry external issue subjects sent ≡ (done tt, sent')
        → (requests : List Request) × Issued issue subjects requests × (sent' ≡ sent ++ requests)
    unfolding issue_all issue_one
    issue_all-done [] sent sent' e = ([], none_left, ap (λ r. r.1) (sym e) ∙ sym (append-nil sent))
    issue_all-done (subject ∷ subjects) sent sent' e =
        let (_, t, first, rest) =
          bind-done (issue_one registry external issue subject)
            (λ _. issue_all registry external issue subjects) sent tt sent' e in
        let (delegation, t1, built, e1) =
          bind-done (or_fail (registry.build_delegation subject) (no_delegation subject)) _ sent tt
            t first in
        let (ext, t2, found, e2) =
          bind-done (or_fail (lookup subject external) (no_keys subject)) _ t1 tt t e1 in
        let (is_built, t1_is) =
          or_fail-done (registry.build_delegation subject) (no_delegation subject) sent delegation
            t1 built in
        let (is_found, t2_is) =
          or_fail-done (lookup subject external) (no_keys subject) t1 ext t2 found in
        let (ok, t_is) = send-done (issue subject delegation ext) t2 t e2 in
        let (requests, issued, more) = issue_all-done subjects t sent' rest in
        (
          issue subject delegation ext ∷ requests,
          one_more is_built is_found ok issued,
          more
              ∙ (ap (λ s. s ++ requests)
                    (t_is ∙ ap (λ s. s ++ (issue subject delegation ext ∷ [])) (t2_is ∙ t1_is))
                  ∙ append_assoc sent (issue subject delegation ext ∷ []) requests),
        )

    issue_one-accepted :
        (subject delegation : Text) (ext : ExternalKeys) (sent : List Request)
        → registry.build_delegation subject ≡ some delegation
        → lookup subject external ≡ some ext
        → registry.accepts (issue subject delegation ext) ≡ true
        → issue_one registry external issue subject sent
          ≡ (done tt, sent ++ (issue subject delegation ext ∷ []))
    unfolding issue_one ◌>>=◌
    issue_one-accepted subject delegation ext sent built found ok =
        rw (built, found, issue_one, ◌>>=◌) (send-accepted (issue subject delegation ext) sent ok)

    issue_all-accepted :
        (subjects : List Text) (requests sent : List Request)
        → Issued issue subjects requests
        → issue_all registry external issue subjects sent ≡ (done tt, sent ++ requests)
    unfolding issue_all ◌>>=◌
    issue_all-accepted _ _ sent none_left = ap (λ s. (done tt, s)) (sym (append-nil sent))
    issue_all-accepted _ _ sent
          (one_more {subject} {delegation} {ext} {subjects} {requests} built found ok issued) =
        let request = issue subject delegation ext in
        bind-run (issue_one registry external issue subject)
          (λ _. issue_all registry external issue subjects) sent tt (sent ++ (request ∷ []))
          (issue_one-accepted subject delegation ext sent built found ok)
        ∙ (issue_all-accepted subjects requests (sent ++ (request ∷ [])) issued
            ∙ ap (λ s. (done tt, s)) (append_assoc sent (request ∷ []) requests))

  bootstrap-done :
      (pipelines processes : List Text) (sent sent' : List Request)
      → bootstrap_external registry external pipelines processes sent ≡ (done tt, sent')
      → Bootstrapped pipelines processes sent sent'
  unfolding bootstrap_external
  bootstrap-done pipelines processes sent sent' e =
      let (document, t, signed, e1) =
        bind-done (or_fail registry.owner_document no_document) _ sent tt sent' e in
      let (_, t1, sends, e2) =
        bind-done (send registry (register_owner document)) _ t tt sent' e1 in
      let (_, t2, first, second) =
        bind-done (issue_all registry external issue_pipeline pipelines) _ t1 tt sent' e2 in
      let (is_signed, t_is) =
        or_fail-done registry.owner_document no_document sent document t signed in
      let (ok, t1_is) = send-done (register_owner document) t t1 sends in
      let (rs, issued, t2_is) = issue_all-done issue_pipeline pipelines t1 t2 first in
      let (rs', issued', sent'_is) = issue_all-done issue_process processes t2 sent' second in
      record {
        document = document;
        for_pipelines = rs;
        for_processes = rs';
        signed = is_signed;
        registered = ok;
        pipelines_issued = issued;
        processes_issued = issued';
        all_sent =
            sent'_is
            ∙ ap (λ s. s ++ rs')
                (t2_is
                  ∙ ap (λ s. s ++ rs) (t1_is ∙ ap (λ s. s ++ (register_owner document ∷ [])) t_is));
      }

  bootstrap-accepted :
      (pipelines processes : List Text) (sent sent' : List Request)
      → Bootstrapped pipelines processes sent sent'
      → bootstrap_external registry external pipelines processes sent ≡ (done tt, sent')
  unfolding bootstrap_external
  bootstrap-accepted pipelines processes sent sent' b =
      let t = sent ++ (register_owner b.document ∷ []) in
      bind-run (or_fail registry.owner_document no_document) _ sent b.document sent
        (rw b.signed refl)
      ∙ (bind-run (send registry (register_owner b.document)) _ sent tt t
            (send-accepted (register_owner b.document) sent b.registered)
          ∙ (bind-run (issue_all registry external issue_pipeline pipelines) _ t tt
                (t ++ b.for_pipelines)
                (issue_all-accepted issue_pipeline pipelines b.for_pipelines t b.pipelines_issued)
              ∙ (issue_all-accepted issue_process processes b.for_processes (t ++ b.for_pipelines)
                    b.processes_issued
                  ∙ ap (λ s. (done tt, s)) (sym b.all_sent))))

  -- `BootstrapExternal` returns exactly if the owner's document is signed and accepted and every
  -- pipeline and process has a delegation, provisioned external keys and an accepted request. It has
  -- then sent the owner's registration, one request for each pipeline and one for each process, in
  -- this order, each with its subject's own delegation and keys.
  pub bootstrap_external_iff :
      (pipelines processes : List Text) (sent sent' : List Request)
      → (bootstrap_external registry external pipelines processes sent ≡ (done tt, sent'))
        ↔ Bootstrapped pipelines processes sent sent'
  bootstrap_external_iff pipelines processes sent sent' = (
    bootstrap-done pipelines processes sent sent',
    bootstrap-accepted pipelines processes sent sent',
  )
