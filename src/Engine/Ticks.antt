-- ===== src/Engine/Ticks.antt =====
-- Trades that wait in the tick buffer, and the loop that hands them on.
use quant_sim_x.Prelude.{
  ℕ, zero, suc, ◌<◌, ◌≡◌, refl, ap, ◌∙◌, subst, some, List, [], ◌∷◌, length, ◌+◌, arith,
}
use quant_sim_x.Double.{Double}
use quant_sim_x.OrderBook.{OrderBook, get_best_bid, get_best_ask}
use quant_sim_x.Indicators.{Sample}
use quant_sim_x.Queues.Fifo
use quant_sim_x.Queues.Fifo.{FifoImpl}
use quant_sim_x.Queues.TickBuffer.{Tick}
use quant_sim_x.Engine.{
  TickStore, Engine, process_trade, process_tick, handle_tick, process_pending_ticks,
}

-- the arguments of a call of `process_trade`
pub record Trade (W : Type 0) : Type 0 where
  pub price : W
  pub qty : W
  pub time : ℕ

module _ {W : Type 0} ⦃d : Double W⦄ where
  pub tick_of : OrderBook W → Trade W → Tick W
  tick_of b t = record {
    timestamp_ms = t.time;
    price = t.price;
    qty = t.qty;
    bid = get_best_bid b;
    ask = get_best_ask b;
  }

  -- `tick_buffer_` is some queue of at most `cap` ticks.
  module _ {cap : ℕ} (impl : FifoImpl (Tick W) cap) where
    open impl use {Queue, Holds, push_law, pop_law}

    abbrev pub store_of : TickStore W Queue
    store_of = record { push_tick = impl.push_impl; pop_tick = impl.pop_impl }

    abbrev pub with_buffer : Queue → Engine W Queue → Engine W Queue
    with_buffer b e = record e { tick_buffer = b }

    pub process_trades : List (Trade W) → Engine W Queue → Engine W Queue
    process_trades [] e = e
    process_trades (t ∷ ts) e = process_trades ts (process_trade store_of e t.price t.qty t.time)

    module _ (no_sample : Sample W) where
      pub handle_all : List (Tick W) → Engine W Queue → Engine W Queue
      handle_all [] e = e
      handle_all (t ∷ ts) e = handle_all ts (handle_tick no_sample e t)

      handle_tick-with_buffer :
          (e : Engine W Queue) (t : Tick W) (b : Queue)
          → handle_tick no_sample (with_buffer b e) t ≡ with_buffer b (handle_tick no_sample e t)
      unfolding handle_tick process_tick
      handle_tick-with_buffer e t b = ground arith

      handle_all-with_buffer :
          (ts : List (Tick W)) (e : Engine W Queue) (b : Queue)
          → handle_all ts (with_buffer b e) ≡ with_buffer b (handle_all ts e)
      unfolding handle_all
      handle_all-with_buffer [] e b = refl
      handle_all-with_buffer (t ∷ ts) e b =
          rw
            (handle_tick-with_buffer e t b, handle_all-with_buffer ts (handle_tick no_sample e t) b)
            refl

      -- With more fuel than ticks wait, the loop handles each of them once, oldest first, and leaves
      -- nothing behind.
      pub pending_in_order :
          (fuel : ℕ) (ts : List (Tick W)) (e : Engine W Queue) (n : ℕ)
          → Holds e.tick_buffer ts (length ts + suc n)
          → length ts < fuel
          → (left : Queue) × (process_pending_ticks no_sample store_of fuel e
              ≡ some (with_buffer left (handle_all ts e)))
            × Holds left [] n
      unfolding process_pending_ticks handle_all
      pending_in_order zero ts e n h l = absurd (omega (arith, l))
      pending_in_order (suc fuel) [] e n h l =
          let now : Holds e.tick_buffer [] (suc n) =
            subst (Holds e.tick_buffer []) (omega arith) h in
          let (told, out, held) = pop_law e.tick_buffer [] n now in
          ((impl.pop_impl e.tick_buffer).2, rw (out, process_pending_ticks) refl, held)
      pending_in_order (suc fuel) (t ∷ ts) e n h l =
          let (told, out, held) =
            pop_law e.tick_buffer (t ∷ ts) (length ts + suc n)
              (subst (Holds e.tick_buffer (t ∷ ts)) (omega arith) h) in
          let buffer = (impl.pop_impl e.tick_buffer).2 in
          let next = handle_tick no_sample e t in
          let kept : handle_tick no_sample (with_buffer buffer e) t ≡ with_buffer buffer next =
            handle_tick-with_buffer e t buffer in
          let (left, ran, clean) =
            pending_in_order fuel ts (with_buffer buffer next) n held (omega (arith, l)) in
          (
            left,
            rw (out, process_pending_ticks)
                (ap (process_pending_ticks no_sample store_of fuel) kept
                  ∙ ran
                  ∙ ap (λ f. some (with_buffer left f)) (handle_all-with_buffer ts next buffer)),
            clean,
          )
