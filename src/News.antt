-- ===== src/News.antt =====
-- The news pipeline (modules/news-pipeline): the tokenizer in front of the model, the score board and
-- the feed crawler.
pub mod Tokens
pub mod Score
pub mod Rss
pub mod Tagger
pub mod Sentiment
pub mod Cycle
