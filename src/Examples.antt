-- ===== src/Examples.antt =====
-- The theorems at concrete inputs, and runs of the definitions.
mod Breaker
mod RateLimit
mod Pool
mod Mqtt
mod Udp
mod Coap
mod Http
mod Production
mod Tcp
mod Health
mod WebSocket
mod Crl
mod Ocsp
mod Tls
mod Proxy
mod Program
mod ProductionMain
mod ProxyCoap
