-- ===== src/Redis.antt =====
-- The Redis server, as the auth modules use it through ioredis: a parameter of their models. An
-- implementation is a record of the commands, and the laws are the documented behaviour of each:
-- GET, SET (EX, NX), DEL, INCR, DECR, EXPIRE, SADD, HSET, and the passing of time. A value is kept as what
-- the program reads from its text: a decimal integer, a JSON object with text members, the members
-- of a set, or any other text.
mod Model
pub use Model.*
