-- ===== src/Market/Publisher.antt =====
-- `RedisPublisher` (modules/market-feed/src/redis_publisher.cpp): the channel and the payload of each
-- publication.
use lemuel_quant_core.Base.{◌++◌, if◌then◌else◌}
use lemuel_quant_core.Base.Bytes.{Bytes, lit, decimal}
use lemuel_quant_core.Feed.{Double, Trade, OrderBook}
use lemuel_quant_core.Stock.Supervise.{is_side_buy, levels_json}

module _ {ℓ} {D : Type ℓ} ⦃d : Double D⦄ where
  open d use {print}

  unfoldable pub trade_to_json : Trade D → Bytes
  trade_to_json t =
      lit "{\"symbol\":\""
      ++ (t.symbol
          ++ (lit "\","
              ++ (lit "\"price\":"
                  ++ (print t.price
                      ++ (lit ","
                          ++ (lit "\"qty\":"
                              ++ (print t.quantity
                                  ++ (lit ","
                                      ++ (lit "\"side\":"
                                          ++ ((if is_side_buy t.side then lit "1" else lit "2")
                                              ++ (lit ","
                                                  ++ (lit "\"ex_ts\":"
                                                      ++ (decimal t.exchange_ts_ns
                                                          ++ (lit ","
                                                            ++ (lit "\"local_ts\":"
                                                            ++ (decimal t.local_ts_ns
                                                            ++ (lit ","
                                                            ++ (lit "\"trade_id\":\""
                                                            ++ (t.trade_id
                                                            ++ lit "\"}")))))))))))))))))))

  unfoldable pub book_to_json : OrderBook D → Bytes
  book_to_json b =
      lit "{\"symbol\":\""
      ++ b.symbol
      ++ lit "\",\"bids\":["
      ++ levels_json 0 b.bids
      ++ lit "],\"asks\":["
      ++ levels_json 0 b.asks
      ++ lit "],\"ex_ts\":"
      ++ decimal b.exchange_ts_ns
      ++ lit ",\"local_ts\":"
      ++ decimal b.local_ts_ns
      ++ lit "}"

  unfoldable pub publish_trade : Bytes → Trade D → Bytes × Bytes
  unfolding trade_to_json
  publish_trade prefix t = (prefix ++ lit "trade.binance." ++ t.symbol, trade_to_json t)

  unfoldable pub publish_book : Bytes → OrderBook D → Bytes × Bytes
  unfolding book_to_json
  publish_book prefix b = (prefix ++ lit "book.binance." ++ b.symbol, book_to_json b)
