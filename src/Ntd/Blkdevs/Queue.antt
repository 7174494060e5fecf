-- ===== src/Ntd/Blkdevs/Queue.antt =====
-- ntd/aml_ntd_blkdevs.c: requests come in while the work item serves others. A step is what one of
-- the two does under the queue's lock.
use amlnf.Prelude.{◌≡◌, refl, sym, ap, ◌∙◌, Option, none, some, List, [], ◌∷◌, ◌++◌, map, arith}
use amlnf.Ntd.Blkdevs.{
  Request, Status, BlktransDev, BlktransOps, ntd_next_request, ntd_queue_rq, serve,
}

-- The device's list, the request that the work item has taken off it, those that have been ended
-- with their status, earliest first, and the medium.
pub record Run (D : Type 0) : Type 0 where
  pub dev : BlktransDev
  pub current : Option Request
  pub ended : List (Request × Status)
  pub medium : D

append_assoc : {A : Type 0} (xs ys zs : List A) → (xs ++ ys) ++ zs ≡ xs ++ (ys ++ zs)
append_assoc [] ys zs = refl
append_assoc (x ∷ xs) ys zs = ap (λ l. x ∷ l) (append_assoc xs ys zs)

append_nil : {A : Type 0} (xs : List A) → xs ++ [] ≡ xs
append_nil [] = refl
append_nil (x ∷ xs) = ap (λ l. x ∷ l) (append_nil xs)

map_append : {A B : Type 0} (f : A → B) (xs ys : List A) → map f (xs ++ ys) ≡ map f xs ++ map f ys
map_append f [] ys = refl
map_append f (x ∷ xs) ys = ap (λ l. f x ∷ l) (map_append f xs ys)

module _ {D : Type 0} (tr : BlktransOps D) where
  -- `submit` is a call of queue_rq, `take` and `finish` are the two halves of a turn of the work item.
  pub data Step : Run D → List Request → Run D → Type 0 where
    submit :
        (r : Run D) (req : Request)
        → Step r (req ∷ []) (record r { dev = (ntd_queue_rq req r.dev).1 })
    take :
        (r : Run D) (req : Request) (dev : BlktransDev)
        → r.current ≡ none
        → ntd_next_request r.dev ≡ some (req, dev)
        → Step r [] (record r { dev = dev; current = some req })
    finish :
        (r : Run D) (req : Request)
        → r.current ≡ some req
        → Step r [] (record r {
          current = none;
          ended = r.ended ++ ((req, (serve tr req r.medium).0) ∷ []);
          medium = (serve tr req r.medium).1;
        })

  -- Many steps, with the requests that came in on the way, in their order.
  pub data Steps : Run D → List Request → Run D → Type 0 where
    done : (r : Run D) → Steps r [] r
    more :
        (r s t : Run D) (reqs more_reqs : List Request)
        → Steps r reqs s
        → Step s more_reqs t
        → Steps r (reqs ++ more_reqs) t

  -- The requests of a run: those ended, the one in work, those that wait.
  abbrev pub in_work : Option Request → List Request
  in_work none = []
  in_work (some req) = req ∷ []

  unfoldable pub all_requests : Run D → List Request
  all_requests r = map (λ e. e.0) r.ended ++ (in_work r.current ++ r.dev.rq_list)

  submit_lem :
      (e c l : List Request) (req : Request)
      → e ++ (c ++ (l ++ (req ∷ []))) ≡ (e ++ (c ++ l)) ++ (req ∷ [])
  submit_lem e c l req =
      ap (λ x. e ++ x) (sym (append_assoc c l (req ∷ [])))
      ∙ sym (append_assoc e (c ++ l) (req ∷ []))

  take_lem :
      (e : List Request) (c : Option Request) (dev dev' : BlktransDev) (req : Request)
      → c ≡ none
      → ntd_next_request dev ≡ some (req, dev')
      → e ++ (req ∷ dev'.rq_list) ≡ (e ++ (in_work c ++ dev.rq_list)) ++ []
  unfolding ntd_next_request
  take_lem e c dev dev' req n h =
      ap (λ x. e ++ x) (taken (dev.rq_list) dev dev' req refl h)
      ∙ ap (λ o. e ++ (in_work o ++ dev.rq_list)) (sym n)
      ∙ sym (append_nil (e ++ (in_work c ++ dev.rq_list)))
    where
      taken :
          (l : List Request) (dev dev' : BlktransDev) (req : Request)
          → dev.rq_list ≡ l
          → ntd_next_request dev ≡ some (req, dev')
          → req ∷ dev'.rq_list ≡ dev.rq_list
      taken [] dev dev' req e h = ground arith
      taken (x ∷ l) dev dev' req e h = ground arith

  finish_lem :
      (ended : List (Request × Status)) (c : Option Request) (l : List Request) (req : Request)
      (st : Status)
      → c ≡ some req
      → map (λ e. e.0) (ended ++ ((req, st) ∷ [])) ++ l
        ≡ (map (λ e. e.0) ended ++ (in_work c ++ l)) ++ []
  finish_lem ended c l req st h =
      ap (λ x. x ++ l) (map_append (λ e. e.0) ended ((req, st) ∷ []))
      ∙ append_assoc (map (λ e. e.0) ended) (req ∷ []) l
      ∙ ap (λ o. map (λ e. e.0) ended ++ (in_work o ++ l)) (sym h)
      ∙ sym (append_nil (map (λ e. e.0) ended ++ (in_work c ++ l)))

  -- A step adds what came in at the end.
  step-all_requests :
      {r s : Run D} {reqs : List Request} → Step r reqs s → all_requests s ≡ all_requests r ++ reqs
  unfolding all_requests ntd_queue_rq
  step-all_requests (submit r req) =
      submit_lem (map (λ e. e.0) r.ended) (in_work r.current) r.dev.rq_list req
  step-all_requests (take r req dev c h) =
      take_lem (map (λ e. e.0) r.ended) r.current r.dev dev req c h
  step-all_requests (finish r req c) =
      finish_lem r.ended r.current r.dev.rq_list req (serve tr req r.medium).0 c

  -- However the calls of queue_rq and the turns of the work item follow each other, the requests ended, the one in work
  -- and those that wait are, in this order, those of before and then those that came in, in the
  -- order in which they came: none is lost, ended twice or overtaken.
  pub Steps-all_requests :
      {r s : Run D} {reqs : List Request} → Steps r reqs s → all_requests s ≡ all_requests r ++ reqs
  Steps-all_requests (done r) = sym (append_nil (all_requests r))
  Steps-all_requests (more r s t reqs more_reqs h g) =
      step-all_requests g
      ∙ ap (λ x. x ++ more_reqs) (Steps-all_requests h)
      ∙ append_assoc (all_requests r) reqs more_reqs
